-- ===== src/Pwospf/Routers.antt =====
-- The list of the routers that are known: their ids, and the interfaces of one of them.
use osnt_plus.Prelude.{
  has, distinct, has-append, ℕ, zero, suc, ◌+◌, ◌≡◌, ◌≢◌, refl, sym, ap, ◌∙◌, true, false, none,
  some, List, [], ◌∷◌, ◌++◌, arith, ◌==◌, ==_iff, ==_refl, ==_false, Bool-cases, if◌then◌else◌,
  get_elem?, set, tally, some_eq, some≢none, inl, inr, Option-cases,
}
use osnt_plus.State.{PwospfInterface, PwospfRouter, IfaceEntry}
use osnt_plus.Dijkstra.{get_router_by_rid}
use osnt_plus.Pwospf.Hello.{on_subnet}

abbrev pub ids : List PwospfRouter → List ℕ
ids [] = []
ids (r ∷ n) = r.router_id ∷ ids n

-- The interfaces of the router that `get_router_by_rid` finds.
abbrev pub interfaces : ℕ → List PwospfRouter → List PwospfInterface
interfaces rid [] = []
interfaces rid (r ∷ n) = if r.router_id == rid then r.interface_list else interfaces rid n

-- How many of them are on the subnet of ours.
abbrev pub links : IfaceEntry → ℕ → List PwospfRouter → ℕ
links iface rid n = tally (on_subnet iface) (interfaces rid n)

-- What `get_router_by_rid` finds.
pub record Found (rid : ℕ) (n : List PwospfRouter) (k : ℕ) : Type 0 where
  pub router : PwospfRouter
  pub at : get_elem? n k ≡ some router
  pub id : router.router_id ≡ rid
  pub interfaces_eq : interfaces rid n ≡ router.interface_list
  pub changed :
      (r' : PwospfRouter) → r'.router_id ≡ rid → interfaces rid (set n k r') ≡ r'.interface_list

pub found :
    (rid : ℕ) (n : List PwospfRouter) (j m : ℕ)
    → get_router_by_rid rid n j ≡ some m
    → (k : ℕ) × (m ≡ j + k) × Found rid n k
unfolding get_router_by_rid
found rid [] j m h = absurd (some≢none h)
found rid (r ∷ n) j m h = elim (Bool-cases (r.router_id == rid)) [
  | inl here ↦ (
    0,
    omega (arith, some_eq (rw (get_router_by_rid, here) at h)),
    record {
      router = r;
      at = refl;
      id = (==_iff _ _).0 here;
      interfaces_eq = rw here refl;
      changed = λ r' e. rw (e, ==_refl rid) refl;
    },
  )
  | inr later ↦
      let (k, e, f) = found rid n (j + 1) m (rw (get_router_by_rid, later) at h) in
      (
        suc k,
        omega arith,
        record {
          router = f.router;
          at = f.at;
          id = f.id;
          interfaces_eq = rw later f.interfaces_eq;
          changed = λ r' e. rw later (f.changed r' e);
        },
      )
]

pub missing :
    (rid : ℕ) (n : List PwospfRouter) (j : ℕ)
    → get_router_by_rid rid n j ≡ none
    → has rid (ids n) ≡ false
unfolding get_router_by_rid
missing rid [] j h = refl
missing rid (r ∷ n) j h = elim (Bool-cases (r.router_id == rid)) [
  | inl here ↦ absurd (some≢none (sym (rw (get_router_by_rid, here) at h)))
  | inr later ↦ rw later (missing rid n (j + 1) (rw (get_router_by_rid, later) at h))
]

-- A router is found whose id is there.
pub known :
    (rid : ℕ) (n : List PwospfRouter)
    → has rid (ids n) ≡ true
    → (k : ℕ) × (get_router_by_rid rid n 0 ≡ some k) × Found rid n k
known rid n h = elim (Option-cases (get_router_by_rid rid n 0)) [
  | inl e ↦ absurd (clash (sym h ∙ missing rid n 0 e))
  | inr (k, e) ↦ let (m, shifted, f) = found rid n 0 k e in (m, e ∙ ap some (omega arith), f)
]
  where
    clash : true ≡ false → ⊥
    clash e = cc

-- A router changes, but for its id.
pub ids-set :
    (n : List PwospfRouter) (k : ℕ) (r r' : PwospfRouter)
    → get_elem? n k ≡ some r
    → r'.router_id ≡ r.router_id
    → ids (set n k r') ≡ ids n
ids-set [] k r r' h e = refl
ids-set (x ∷ n) zero r r' h e = rw (e, some_eq h) refl
ids-set (x ∷ n) (suc k) r r' h e = ap (λ (l : List ℕ). x.router_id ∷ l) (ids-set n k r r' h e)

-- A router with another id changes.
pub interfaces-set_other :
    (rid : ℕ) (n : List PwospfRouter) (k : ℕ) (r r' : PwospfRouter)
    → get_elem? n k ≡ some r
    → r'.router_id ≡ r.router_id
    → r.router_id ≢ rid
    → interfaces rid (set n k r') ≡ interfaces rid n
interfaces-set_other rid [] k r r' h e other = refl
interfaces-set_other rid (x ∷ n) zero r r' h e other = rw (some_eq h, e, ==_false _ _ other) refl
interfaces-set_other rid (x ∷ n) (suc k) r r' h e other =
    ap (λ (l : List PwospfInterface). if x.router_id == rid then x.interface_list else l)
      (interfaces-set_other rid n k r r' h e other)

-- A router changes, but for its id and the subnets of its interfaces.
pub links-set :
    (iface : IfaceEntry) (rid : ℕ) (n : List PwospfRouter) (k : ℕ) (r r' : PwospfRouter)
    → get_elem? n k ≡ some r
    → r'.router_id ≡ r.router_id
    → tally (on_subnet iface) r'.interface_list ≡ tally (on_subnet iface) r.interface_list
    → links iface rid (set n k r') ≡ links iface rid n
links-set iface rid [] k r r' h e same = refl
links-set iface rid (x ∷ n) zero r r' h e same = elim (Bool-cases (x.router_id == rid)) [
  | inl here ↦
      rw (e, sym (ap (λ (y : PwospfRouter). y.router_id) (some_eq h)), here)
        (same
          ∙ ap (λ (y : PwospfRouter). tally (on_subnet iface) y.interface_list) (sym (some_eq h)))
  | inr later ↦ rw (e, sym (ap (λ (y : PwospfRouter). y.router_id) (some_eq h)), later) refl
]
links-set iface rid (x ∷ n) (suc k) r r' h e same = elim (Bool-cases (x.router_id == rid)) [
  | inl here ↦ rw here refl
  | inr later ↦ rw later (links-set iface rid n k r r' h e same)
]

pub ids-append : (a b : List PwospfRouter) → ids (a ++ b) ≡ ids a ++ ids b
ids-append [] b = refl
ids-append (r ∷ a) b = ap (λ (l : List ℕ). r.router_id ∷ l) (ids-append a b)

pub interfaces-append :
    (rid : ℕ) (a b : List PwospfRouter)
    → has rid (ids a) ≡ true
    → interfaces rid (a ++ b) ≡ interfaces rid a
interfaces-append rid [] b h = ground arith
interfaces-append rid (r ∷ a) b h = elim (Bool-cases (r.router_id == rid)) [
  | inl here ↦ rw here refl
  | inr later ↦ rw later (interfaces-append rid a b (rw later at h))
]

-- A router joins whose id is not there.
pub distinct-append :
    (x : ℕ) (a : List ℕ) → distinct a ≡ true → has x a ≡ false → distinct (a ++ x ∷ []) ≡ true
distinct-append x [] h new = refl
distinct-append x (y ∷ a) h new = ground (arith, has-append y a (x ∷ []), distinct-append x a)
