-- ===== src/Dijkstra/Nearest.antt =====
-- What `get_shortest` chooses.
use osnt_plus.Prelude.{
  ℕ, suc, ◌+◌, ◌≤◌, ◌<◌, ◌≡◌, refl, ap, ◌∙◌, ◌⊎◌, inl, inr, Bool, true, false, not, ◌&&◌, Option,
  none, some, List, [], ◌∷◌, arith, ltb, ltb→lt, get_elem?, All, Bool-cases, &&_left, &&_right,
}
use osnt_plus.State.{PwospfRouter}
use osnt_plus.Dijkstra.{infinity, shortest_loop, get_shortest}

-- The router is not in N' yet.
abbrev pub is_open : PwospfRouter → Bool
is_open r = not r.shortest_path_found

-- No open router of the list is nearer than `d`.
abbrev pub NoneNearer : ℕ → List PwospfRouter → Type 0
NoneNearer d = All (λ x. is_open x ≡ true → d ≤ x.distance)

-- Position `k` holds an open router nearer than `d`, and no open one is nearer than it.
pub record IsNearest (routers : List PwospfRouter) (d k : ℕ) : Type 0 where
  pub r : PwospfRouter
  pub held : get_elem? routers k ≡ some r
  pub unsettled : is_open r ≡ true
  pub nearer : r.distance < d
  pub least : NoneNearer r.distance routers

shift : (k j : ℕ) → k + 1 + j ≡ k + suc j
shift k j = omega arith

not_better : (b : Bool) (x d : ℕ) → (b && ltb x d) ≡ false → b ≡ true → d ≤ x
not_better b x d h t = ground arith

shortest_loop_lem :
    (n : List PwospfRouter) (k : ℕ) (best : Option ℕ) (d : ℕ)
    → ((shortest_loop n k best d ≡ best) × NoneNearer d n)
      ⊎ ((j : ℕ) × (shortest_loop n k best d ≡ some (k + j)) × IsNearest n d j)
unfolding shortest_loop
shortest_loop_lem [] k best d = inl (refl, tt)
shortest_loop_lem (r ∷ n) k best d = elim (Bool-cases (is_open r && ltb r.distance d)) [
  | inl better ↦
      rw (better, shortest_loop) (chosen better (shortest_loop_lem n (k + 1) (some k) r.distance))
  | inr worse ↦ rw (worse, shortest_loop) (passed worse (shortest_loop_lem n (k + 1) best d))
]
  where
    chosen :
        (is_open r && ltb r.distance d) ≡ true
        → ((shortest_loop n (k + 1) (some k) r.distance ≡ some k) × NoneNearer r.distance n)
          ⊎ ((j : ℕ) × (shortest_loop n (k + 1) (some k) r.distance ≡ some (k + 1 + j))
              × IsNearest n r.distance j)
        → ((shortest_loop n (k + 1) (some k) r.distance ≡ best) × NoneNearer d (r ∷ n))
          ⊎ ((j : ℕ) × (shortest_loop n (k + 1) (some k) r.distance ≡ some (k + j))
              × IsNearest (r ∷ n) d j)
    chosen b (inl (e, all)) = inr (
      0,
      e ∙ ap (λ (x : ℕ). some x) (omega arith),
      record {
        r = r;
        held = refl;
        unsettled = &&_left (is_open r) (ltb r.distance d) b;
        nearer = ltb→lt r.distance d (&&_right (is_open r) (ltb r.distance d) b);
        least = (λ _. omega arith, all);
      },
    )
    chosen b (inr (j, e, f)) = inr (
      suc j,
      e ∙ ap (λ (x : ℕ). some x) (shift k j),
      record {
        r = f.r;
        held = f.held;
        unsettled = f.unsettled;
        nearer =
            omega
              (arith, f.nearer, ltb→lt r.distance d (&&_right (is_open r) (ltb r.distance d) b));
        least = (λ _. omega (arith, f.nearer), f.least);
      },
    )

    passed :
        (is_open r && ltb r.distance d) ≡ false
        → ((shortest_loop n (k + 1) best d ≡ best) × NoneNearer d n)
          ⊎ ((j : ℕ) × (shortest_loop n (k + 1) best d ≡ some (k + 1 + j)) × IsNearest n d j)
        → ((shortest_loop n (k + 1) best d ≡ best) × NoneNearer d (r ∷ n))
          ⊎ ((j : ℕ) × (shortest_loop n (k + 1) best d ≡ some (k + j)) × IsNearest (r ∷ n) d j)
    passed b (inl (e, all)) = inl (e, (not_better (is_open r) r.distance d b, all))
    passed b (inr (j, e, f)) = inr (
      suc j,
      e ∙ ap (λ (x : ℕ). some x) (shift k j),
      record {
        r = f.r;
        held = f.held;
        unsettled = f.unsettled;
        nearer = f.nearer;
        least = (λ o. omega (arith, f.nearer, not_better (is_open r) r.distance d b o), f.least);
      },
    )

-- `get_shortest` returns the position of an open router of finite distance such that no open router
-- is nearer, or a null pointer, and then no open router has a finite distance.
pub get_shortest_lem :
    (routers : List PwospfRouter)
    → ((get_shortest routers ≡ none) × NoneNearer infinity routers)
      ⊎ ((k : ℕ) × (get_shortest routers ≡ some k) × IsNearest routers infinity k)
unfolding get_shortest
get_shortest_lem routers = elim (shortest_loop_lem routers 0 none infinity) [
  | inl h ↦ inl h
  | inr (j, e, f) ↦ inr (j, e ∙ ap (λ (x : ℕ). some x) (omega arith), f)
]
