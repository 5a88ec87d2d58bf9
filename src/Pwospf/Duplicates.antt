-- ===== src/Pwospf/Duplicates.antt =====
-- A link state update that comes again changes nothing and is not passed on.
use osnt_plus.Prelude.{
  ℕ, zero, suc, ◌+◌, ◌≡◌, refl, sym, ap, ◌∙◌, false, Option, none, some, List, [], ◌∷◌, ◌++◌, arith,
  Bool-cases, Option-cases, if◌then◌else◌, ◌==◌, ==_refl, get_elem?, set, some_eq, some≢none, inl,
  inr,
}
use osnt_plus.Net.{ntohs}
use osnt_plus.State.{PwospfRouter}
use osnt_plus.Packet.{Packet}
use osnt_plus.Dijkstra.{get_router_by_rid}
use osnt_plus.Pwospf.{pwospf_hdr, pwospf_rid, lsu_seq}
use osnt_plus.Pwospf.Lsu.{new_router, update_router, is_newer, learn}
use osnt_plus.Pwospf.Routers.{found}
use osnt_plus.Pwospf.WellFormed.Lsu.{learn_new, learn_known}

get_router_by_rid-append :
    (n : List PwospfRouter) (r : PwospfRouter) (rid j : ℕ)
    → get_router_by_rid rid n j ≡ none
    → r.router_id ≡ rid
    → (k : ℕ) × (get_router_by_rid rid (n ++ r ∷ []) j ≡ some (j + k))
      × (get_elem? (n ++ r ∷ []) k ≡ some r)
unfolding get_router_by_rid
get_router_by_rid-append [] r rid j h e =
    (0, rw (get_router_by_rid, e, ==_refl rid) (ap some (omega arith)), refl)
get_router_by_rid-append (x ∷ n) r rid j h e = elim (Bool-cases (x.router_id == rid)) [
  | inl here ↦ absurd (some≢none (sym (rw (get_router_by_rid, here) at h)))
  | inr later ↦
      let (k, finds, at) =
        get_router_by_rid-append n r rid (j + 1) (rw (get_router_by_rid, later) at h) e in
      (suc k, rw (get_router_by_rid, later) (finds ∙ ap some (omega arith)), at)
]

get_router_by_rid-set :
    (n : List PwospfRouter) (k : ℕ) (r r' : PwospfRouter) (rid j : ℕ)
    → get_elem? n k ≡ some r
    → r'.router_id ≡ r.router_id
    → get_router_by_rid rid (set n k r') j ≡ get_router_by_rid rid n j
unfolding get_router_by_rid
get_router_by_rid-set [] k r r' rid j h e = refl
get_router_by_rid-set (x ∷ n) zero r r' rid j h e = rw (e, some_eq h) refl
get_router_by_rid-set (x ∷ n) (suc k) r r' rid j h e =
    ap (λ (o : Option ℕ). if x.router_id == rid then some j else o)
      (get_router_by_rid-set n k r r' rid (j + 1) h e)

get_elem?-set :
    (n : List PwospfRouter) (k : ℕ) (r r' : PwospfRouter)
    → get_elem? n k ≡ some r
    → get_elem? (set n k r') k ≡ some r'
get_elem?-set [] k r r' h = absurd (some≢none h)
get_elem?-set (x ∷ n) zero r r' h = refl
get_elem?-set (x ∷ n) (suc k) r r' h = get_elem?-set n k r r' h

-- An update is not newer than what it was stored as.
not_newer :
    (p : Packet) (r : PwospfRouter) → r.seq ≡ ntohs (lsu_seq p pwospf_hdr) → is_newer p r ≡ false
not_newer p r h = rw (h, ==_refl (ntohs (lsu_seq p pwospf_hdr))) refl

settled :
    (later : ℕ) (p : Packet) (n : List PwospfRouter) (k : ℕ) (r : PwospfRouter)
    → get_router_by_rid (pwospf_rid p pwospf_hdr) n 0 ≡ some k
    → get_elem? n k ≡ some r
    → is_newer p r ≡ false
    → learn later p n ≡ (n, false, false)
settled later p n k r finds at old = learn_known later p n k r finds at ∙ rw old refl

-- An update that comes a second time leaves the router list as the first left it, changes nothing
-- that the neighbours are told, and is not passed on.
pub learn-learn :
    (now later : ℕ) (p : Packet) (n : List PwospfRouter)
    → learn later p (learn now p n).0 ≡ ((learn now p n).0, false, false)
unfolding new_router update_router
learn-learn now later p n = elim (Option-cases (get_router_by_rid (pwospf_rid p pwospf_hdr) n 0)) [
  | inl new ↦
      let (k, finds, at) =
        get_router_by_rid-append n (new_router now p) (pwospf_rid p pwospf_hdr) 0 new refl in
      rw (learn_new now p n new) (
        settled later p (n ++ new_router now p ∷ []) (0 + k) (new_router now p) finds
          (ap (get_elem? (n ++ new_router now p ∷ [])) {x = 0 + k} {y = k} (omega arith) ∙ at)
          (not_newer p (new_router now p) refl))
  | inr (k, finds) ↦
      let (m, e, f) = found (pwospf_rid p pwospf_hdr) n 0 k finds in
      let at = ap (get_elem? n) {x = k} {y = m} (omega arith) ∙ f.at in
      let r' = (update_router now p f.router).0 in
      elim (Bool-cases (is_newer p f.router)) [
        | inl newer ↦
            rw (learn_known now p n k f.router finds at, newer)
              (settled later p (set n k r') k r'
                (get_router_by_rid-set n k f.router r' (pwospf_rid p pwospf_hdr) 0 at refl ∙ finds)
                (get_elem?-set n k f.router r' at) (not_newer p r' refl))
        | inr old ↦
            rw (learn_known now p n k f.router finds at, old)
              (settled later p n k f.router finds at old)
      ]
]
