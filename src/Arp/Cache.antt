-- ===== src/Arp/Cache.antt =====
-- What the operations on the ARP cache guarantee.
use osnt_plus.Prelude.{
  ℕ, ◌≡◌, refl, not, ◌&&◌, none, some, List, [], ◌∷◌, ◌==◌, if◌then◌else◌, keep, tally, arith,
}
use osnt_plus.State.{ArpCacheEntry, RouterState}
use osnt_plus.Arp.{
  in_arp_cache, cached, update_cache_list, del_arp_cache, expired, expire_loop, expire_arp_cache,
  trigger_arp_cache_modified, write_arp_cache_to_hw,
}

-- After an update the address is cached with the new hardware address, and every other address is
-- cached as before.
pub in_arp_cache-update_cache_list :
    (now : ℕ) (cache : List ArpCacheEntry) (ip : ℕ) (mac : List ℕ) (is_static other : ℕ)
    → in_arp_cache (update_cache_list now cache ip mac is_static) other
      ≡ (if other == ip then some (cached now ip mac is_static) else in_arp_cache cache other)
unfolding in_arp_cache update_cache_list
in_arp_cache-update_cache_list now [] ip mac is_static other = ground arith
in_arp_cache-update_cache_list now (e ∷ n) ip mac is_static other =
    ground (arith, in_arp_cache-update_cache_list now n ip mac is_static other)

-- `del_arp_cache` removes exactly the entries of the address and returns their number, and then the
-- address is not cached.
pub del_arp_cache_lem :
    (cache : List ArpCacheEntry) (ip : ℕ)
    → (del_arp_cache cache ip ≡ (keep (λ e. not (e.ip == ip)) cache, tally (λ e. e.ip == ip) cache))
      × (in_arp_cache (del_arp_cache cache ip).0 ip ≡ none)
unfolding del_arp_cache in_arp_cache
del_arp_cache_lem [] ip = (refl, refl)
del_arp_cache_lem (e ∷ n) ip = ground (arith, del_arp_cache_lem n ip)

expire_loop_lem :
    (now arp_ttl : ℕ) (cache : List ArpCacheEntry)
    → expire_loop now arp_ttl cache ≡ (
      keep (λ e. not (expired now arp_ttl e)) cache,
      not (tally (expired now arp_ttl) cache == 0),
    )
unfolding expire_loop
expire_loop_lem now arp_ttl [] = refl
expire_loop_lem now arp_ttl (e ∷ n) = ground (arith, expire_loop_lem now arp_ttl n)

-- `expire_arp_cache` keeps exactly the entries that are static or not too old, in order, and writes
-- the new cache to the device only where an entry went.
pub expire_arp_cache_lem :
    (width address now : ℕ) (rs : RouterState)
    → ((expire_arp_cache width address now rs).arp_cache
        ≡ keep (λ e. not (expired now rs.arp_ttl e)) rs.arp_cache)
      × ((expire_arp_cache width address now rs).writes ≡ (
          if rs.is_netfpga && not (tally (expired now rs.arp_ttl) rs.arp_cache == 0)
          then write_arp_cache_to_hw width address
              (keep (λ e. not (expired now rs.arp_ttl e)) rs.arp_cache)
              rs.writes
          else rs.writes))
unfolding expire_arp_cache trigger_arp_cache_modified
expire_arp_cache_lem width address now rs =
    rw (expire_loop_lem now rs.arp_ttl rs.arp_cache, expire_arp_cache) (ground arith)
