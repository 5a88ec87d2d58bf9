-- ===== src/Pwospf/WellFormed/Lsu.antt =====
-- The link state updates, and the passes of the threads, keep the state well formed.
use osnt_plus.Prelude.{
  has, distinct, has-append, ℕ, ◌+◌, ◌<◌, ◌≡◌, ◌≢◌, refl, sym, ap, ◌∙◌, Bool, true, false, not,
  ◌||◌, ◌&&◌, none, some, List, [], ◌∷◌, ◌++◌, arith, Bool-cases, Option-cases, if◌then◌else◌, ◌==◌,
  ==_false, All-imp, keep, inl, inr, length, ltb, set, get_elem?, tally,
}
use osnt_plus.State.{with_lock-free, PwospfRouter, RouterState}
use osnt_plus.Packet.{Packet}
use osnt_plus.Dijkstra.{get_router_by_rid}
use osnt_plus.Pwospf.{pwospf_hdr, pwospf_rid}
use osnt_plus.Pwospf.Hello.{ip_src}
use osnt_plus.Pwospf.Lsu.{
  new_router, update_router, is_newer, learn, ttl_left, forwarded_lsu, process_pwospf_lsu_packet,
  holds_adverts, holds_copy, elapsed, lsu_pass, is_stale, timeout_loop, lsu_timeout_pass,
}
use osnt_plus.Pwospf.Routers.{
  ids, interfaces, links, found, missing, known, ids-set, interfaces-set_other, ids-append,
  interfaces-append, distinct-append,
}
use osnt_plus.Pwospf.Keeps.{start_lsu_bcast_flood-Kept}
use osnt_plus.Pwospf.WellFormed.{
  WellFormed, Ready, Kept-Ready, propagate_if-Ready, broadcast_if-Ready,
}

-- The list after a change that leaves our router.
record Sound (ours : ℕ) (a b : List PwospfRouter) : Type 0 where
  there : has ours (ids b) ≡ true
  once : distinct (ids b) ≡ true
  same : interfaces ours b ≡ interfaces ours a

Sound-WellFormed :
    (rs : RouterState) (b : List PwospfRouter)
    → Sound rs.router_id rs.pwospf_router_list b
    → WellFormed rs
    → WellFormed (record rs { pwospf_router_list = b })
Sound-WellFormed rs b sound wf = record {
  ours = sound.there;
  once = sound.once;
  linked =
      All-imp (λ iface. 0 < links iface rs.router_id rs.pwospf_router_list)
        (λ iface. 0 < links iface rs.router_id b) rs.if_list (λ iface h. rw sound.same h) wf.linked;
}

pub learn_new :
    (now : ℕ) (p : Packet) (n : List PwospfRouter)
    → get_router_by_rid (pwospf_rid p pwospf_hdr) n 0 ≡ none
    → learn now p n ≡ (n ++ new_router now p ∷ [], true, true)
unfolding learn
learn_new now p n h = rw (learn, h) refl

pub learn_known :
    (now : ℕ) (p : Packet) (n : List PwospfRouter) (k : ℕ) (r : PwospfRouter)
    → get_router_by_rid (pwospf_rid p pwospf_hdr) n 0 ≡ some k
    → get_elem? n k ≡ some r
    → learn now p n ≡ (
        if is_newer p r
        then (set n k (update_router now p r).0, (update_router now p r).1, true)
        else (n, false, false))
unfolding learn
learn_known now p n k r finds at = rw (learn, finds, at) refl

learn-Sound :
    (ours now : ℕ) (p : Packet) (n : List PwospfRouter)
    → ours ≢ pwospf_rid p pwospf_hdr
    → has ours (ids n) ≡ true
    → distinct (ids n) ≡ true
    → Sound ours n (learn now p n).0
unfolding new_router update_router
learn-Sound ours now p n other there once =
    elim (Option-cases (get_router_by_rid (pwospf_rid p pwospf_hdr) n 0)) [
      | inl new ↦ rw (learn_new now p n new) (record {
        there =
            ap (has ours) (ids-append n (new_router now p ∷ []))
            ∙ has-append ours (ids n) (pwospf_rid p pwospf_hdr ∷ [])
            ∙ rw there refl;
        once =
            ap distinct (ids-append n (new_router now p ∷ []))
            ∙ distinct-append (pwospf_rid p pwospf_hdr) (ids n) once
                (missing (pwospf_rid p pwospf_hdr) n 0 new);
        same = interfaces-append ours n (new_router now p ∷ []) there;
      })
      | inr (k, finds) ↦
          let (m, e, f) = found (pwospf_rid p pwospf_hdr) n 0 k finds in
          let r' = (update_router now p f.router).0 in
          let at = ap (get_elem? n) {x = k} {y = m} (omega arith) ∙ f.at in
          let kept = ids-set n k f.router r' at refl in
          elim (Bool-cases (is_newer p f.router)) [
            | inl newer ↦
                rw (learn_known now p n k f.router finds at, newer)
                  (record {
                    there = ap (has ours) kept ∙ there;
                    once = ap distinct kept ∙ once;
                    same =
                        interfaces-set_other ours n k f.router r' at refl
                          (λ same. other (sym same ∙ f.id));
                  })
            | inr old ↦
                rw (learn_known now p n k f.router finds at, old)
                  (record { there = there; once = once; same = refl })
          ]
    ]

long : (p : Packet) → holds_adverts p ≡ true → ltb (length p) 66 ≡ false
unfolding holds_adverts
long p whole = ground (arith, whole)

pub process_pwospf_lsu_packet-Ready :
    (now : ℕ) (rs : RouterState) (p : Packet)
    → holds_adverts p ≡ true
    → holds_copy p ≡ true
    → Ready rs
    → (rs' : RouterState) × (process_pwospf_lsu_packet now rs p ≡ some rs') × Ready rs'
unfolding process_pwospf_lsu_packet
process_pwospf_lsu_packet-Ready now rs p whole copy ready =
    let opened = with_lock-free {A = RouterState} rs.pwospf_router_list_lock ready.free in
    elim (Bool-cases (rs.router_id == pwospf_rid p pwospf_hdr)) [
      | inl mine ↦ (rs, simp (process_pwospf_lsu_packet, mine) refl, ready)
      | inr other ↦
          let after = learn now p rs.pwospf_router_list in
          let rs1 : RouterState = record rs { pwospf_router_list = after.0 } in
          let ready1 : Ready rs1 = record {
            sound =
                Sound-WellFormed rs after.0
                  (learn-Sound rs.router_id now p rs.pwospf_router_list
                    (λ e. ground (arith, e, other)) ready.sound.ours ready.sound.once)
                  ready.sound;
            free = ready.free;
          } in
          let forwards = after.2 && ltb 0 (ttl_left p) in
          let ready2 = broadcast_if-Ready forwards rs1 (forwarded_lsu p) (some (ip_src p)) ready1 in
          let inside : (after.2 && not (holds_adverts p) || forwards && not (holds_copy p))
              ≡ false =
            never after.2 forwards in
          let (rs', runs, ready') = propagate_if-Ready after.1 now _ ready2 in
          (rs', simp (process_pwospf_lsu_packet, other, long p whole, opened, inside) runs, ready')
    ]
  where
    never : (a b : Bool) → (a && not (holds_adverts p) || b && not (holds_copy p)) ≡ false
    never a b = rw (whole, copy) (ground arith)

pub lsu_pass-Ready :
    (now : ℕ) (rs : RouterState)
    → Ready rs
    → (rs' : RouterState) × (lsu_pass now rs ≡ some rs') × Ready rs'
unfolding lsu_pass
lsu_pass-Ready now rs ready =
    let opened = with_lock-free {A = RouterState} rs.pwospf_router_list_lock ready.free in
    let (k, finds, f) = known rs.router_id rs.pwospf_router_list ready.sound.ours in
    elim (Bool-cases (ltb rs.pwospf_lsu_interval (elapsed now f.router.last_update))) [
      | inl late ↦
          let (rs', runs, kept) = start_lsu_bcast_flood-Kept now rs ready.sound.ours in
          (rs', simp (lsu_pass, opened, finds, f.at, late) runs, Kept-Ready rs rs' kept ready)
      | inr early ↦ (rs, simp (lsu_pass, opened, finds, f.at, early) refl, ready)
    ]

-- The routers that are kept: the loop of `pwospf_lsu_timeout_thread` removes the stale ones.
pub timeout_loop_lem :
    (now lsu_interval router_id : ℕ) (n : List PwospfRouter)
    → timeout_loop now lsu_interval router_id n ≡ (
      keep (λ r. not (is_stale now lsu_interval router_id r)) n,
      not (tally (is_stale now lsu_interval router_id) n == 0),
    )
unfolding timeout_loop
timeout_loop_lem now lsu_interval router_id [] = refl
timeout_loop_lem now lsu_interval router_id (r ∷ n) =
    let late = is_stale now lsu_interval router_id in
    let rest = timeout_loop_lem now lsu_interval router_id n in
    elim (Bool-cases (late r)) [
      | inl stale ↦ rw (timeout_loop, stale, rest, ==_false (1 + tally late n) 0 (omega arith)) refl
      | inr fresh ↦ rw (timeout_loop, fresh, rest, none_here (tally late n)) refl
    ]
  where
    none_here : (t : ℕ) → 0 + t ≡ t
    none_here t = omega arith

module _ (now lsu_interval ours : ℕ) where
  abbrev fresh : List PwospfRouter → List PwospfRouter
  fresh = keep (λ r. not (is_stale now lsu_interval ours r))

  our_own :
      (r : PwospfRouter) → (r.router_id == ours) ≡ true → is_stale now lsu_interval ours r ≡ false
  our_own r h = rw h refl

  has-keep : (x : ℕ) (n : List PwospfRouter) → has x (ids n) ≡ false → has x (ids (fresh n)) ≡ false
  has-keep x [] h = refl
  has-keep x (r ∷ n) h = elim (Bool-cases (is_stale now lsu_interval ours r)) [
    | inl stale ↦ rw stale (has-keep x n (ground arith))
    | inr stays ↦ rw stays (ground (arith, has-keep x n))
  ]

  distinct-keep :
      (n : List PwospfRouter) → distinct (ids n) ≡ true → distinct (ids (fresh n)) ≡ true
  distinct-keep [] h = refl
  distinct-keep (r ∷ n) h = elim (Bool-cases (is_stale now lsu_interval ours r)) [
    | inl stale ↦ rw stale (distinct-keep n (ground arith))
    | inr stays ↦ rw stays (ground (arith, distinct-keep n, has-keep r.router_id n))
  ]

  interfaces-keep : (n : List PwospfRouter) → interfaces ours (fresh n) ≡ interfaces ours n
  interfaces-keep [] = refl
  interfaces-keep (r ∷ n) = elim (Bool-cases (r.router_id == ours)) [
    | inl here ↦ rw (our_own r here, here) refl
    | inr other ↦ elim (Bool-cases (is_stale now lsu_interval ours r)) [
      | inl stale ↦ rw (stale, other) (interfaces-keep n)
      | inr stays ↦ rw (stays, other) (interfaces-keep n)
    ]
  ]

  has-keep_ours :
      (n : List PwospfRouter) → has ours (ids n) ≡ true → has ours (ids (fresh n)) ≡ true
  has-keep_ours [] h = h
  has-keep_ours (r ∷ n) h = elim (Bool-cases (r.router_id == ours)) [
    | inl here ↦ rw (our_own r here, here) refl
    | inr other ↦ elim (Bool-cases (is_stale now lsu_interval ours r)) [
      | inl stale ↦ rw stale (has-keep_ours n (rw other at h))
      | inr stays ↦ rw (stays, other) (has-keep_ours n (rw other at h))
    ]
  ]

pub lsu_timeout_pass-Ready :
    (now : ℕ) (rs : RouterState)
    → Ready rs
    → (rs' : RouterState) × (lsu_timeout_pass now rs ≡ some rs') × Ready rs'
unfolding lsu_timeout_pass
lsu_timeout_pass-Ready now rs ready =
    let wf = ready.sound in
    let opened = with_lock-free {A = RouterState} rs.pwospf_router_list_lock ready.free in
    let n = rs.pwospf_router_list in
    let wf1 =
      Sound-WellFormed rs (fresh now rs.pwospf_lsu_interval rs.router_id n)
        (record {
          there = has-keep_ours now rs.pwospf_lsu_interval rs.router_id n wf.ours;
          once = distinct-keep now rs.pwospf_lsu_interval rs.router_id n wf.once;
          same = interfaces-keep now rs.pwospf_lsu_interval rs.router_id n;
        })
        wf in
    let timedout = not (tally (is_stale now rs.pwospf_lsu_interval rs.router_id) n == 0) in
    let (rs', runs, ready') =
      propagate_if-Ready timedout now _ (record { sound = wf1; free = ready.free }) in
    (rs', simp (lsu_timeout_pass, opened, timeout_loop_lem) runs, ready')
