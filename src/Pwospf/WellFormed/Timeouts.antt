-- ===== src/Pwospf/WellFormed/Timeouts.antt =====
-- The hello packets that are sent, and the neighbours that time out, keep the state well formed:
-- the assertion that a port has an interface on its subnet never fails.
use osnt_plus.Prelude.{
  if◌then◌else◌, has, ℕ, ◌+◌, ◌<◌, ◌≡◌, ◌⊎◌, refl, ap, ◌∙◌, Bool, true, false, ◌&&◌, ◌||◌, some,
  List, [], ◌∷◌, arith, Bool-cases, ◌==◌, ==_false, All, All-imp, inl, inr, set, tally, &&_left,
}
use osnt_plus.State.{
  lock_free, with_lock, with_lock-free, PwospfInterface, PwospfRouter, IfaceEntry, NbrRouter,
  RouterState,
}
use osnt_plus.Packet.{Packet}
use osnt_plus.Pwospf.Hello.{
  on_subnet, blank_link, remove_link, drop_link, drop_our_link, is_silent, timedout_loop,
  hello_packet, hello_loop, broadcast_pwospf_hello_packet,
}
use osnt_plus.Arp.{send_packet}
use osnt_plus.Pwospf.Flood.{propagate_pwospf_changes}
use osnt_plus.Pwospf.Routers.{ids, interfaces, links, known, ids-set}
use osnt_plus.Pwospf.WellFormed.{Ready, propagate_if-Ready}

-- Every port with an interface on its subnet still has one.
abbrev Linked : List PwospfInterface → List PwospfInterface → Type 0
Linked a b = (port : IfaceEntry) → 0 < tally (on_subnet port) a → 0 < tally (on_subnet port) b

tally-blank_link :
    (port iface : IfaceEntry) (l : List PwospfInterface)
    → tally (on_subnet port) (blank_link iface l) ≡ tally (on_subnet port) l
unfolding blank_link
tally-blank_link port iface [] = refl
tally-blank_link port iface (pi ∷ n) = elim (Bool-cases (on_subnet iface pi)) [
  | inl here ↦ simp (blank_link, here) refl
  | inr later ↦ simp (blank_link, later) (omega (arith, tally-blank_link port iface n))
]

-- Two ports that share one of the interfaces share all of them.
same_subnet :
    (port iface : IfaceEntry) (pi e : PwospfInterface)
    → on_subnet port pi ≡ true
    → on_subnet iface pi ≡ true
    → on_subnet port e ≡ on_subnet iface e
same_subnet port iface pi e a b = ground arith

tally-ext :
    (p q : PwospfInterface → Bool) (l : List PwospfInterface)
    → ((e : PwospfInterface) → p e ≡ q e)
    → tally p l ≡ tally q l
tally-ext p q [] same = refl
tally-ext p q (e ∷ n) same = rw (same e, tally-ext p q n same) refl

tally-remove_link :
    (port iface : IfaceEntry) (rid : ℕ) (l : List PwospfInterface)
    → (tally (on_subnet port) (remove_link iface rid l) ≡ tally (on_subnet port) l)
      ⊎ (((e : PwospfInterface) → on_subnet port e ≡ on_subnet iface e)
          × (tally (on_subnet port) l ≡ tally (on_subnet port) (remove_link iface rid l) + 1))
unfolding remove_link
tally-remove_link port iface rid [] = inl refl
tally-remove_link port iface rid (pi ∷ n) =
    elim (Bool-cases (on_subnet iface pi && rid == pi.router_id)) [
      | inr later ↦ elim (tally-remove_link port iface rid n) [
        | inl same ↦ inl (simp (remove_link, later) (omega (arith, same)))
        | inr (shared, less) ↦ inr (shared, simp (remove_link, later) (omega (arith, less)))
      ]
      | inl here ↦ elim (Bool-cases (on_subnet port pi)) [
        | inr apart ↦ inl (simp (remove_link, here, apart) (omega arith))
        | inl on ↦ inr (
          λ e. same_subnet port iface pi e on (&&_left _ _ here),
          simp (remove_link, here, on) (omega arith),
        )
      ]
    ]

-- The assertion holds where the port has an interface on its subnet.
drop_link-Linked :
    (iface : IfaceEntry) (rid : ℕ) (l : List PwospfInterface)
    → 0 < tally (on_subnet iface) l
    → (l' : List PwospfInterface) × (drop_link iface rid l ≡ some l') × Linked l l'
unfolding drop_link
drop_link-Linked iface rid l h = elim (Bool-cases (tally (on_subnet iface) l == 1)) [
  | inl one ↦ (
    blank_link iface l,
    simp (drop_link, ==_false (tally (on_subnet iface) l) 0 (omega (arith, h)), one) refl,
    λ port linked. omega (arith, linked, tally-blank_link port iface l),
  )
  | inr more ↦ (
    remove_link iface rid l,
    simp (drop_link, ==_false (tally (on_subnet iface) l) 0 (omega (arith, h)), more) refl,
    λ port linked. elim (tally-remove_link port iface rid l) [
      | inl same ↦ omega (arith, same, linked)
      | inr (shared, less) ↦
          ground (arith, less, h, more, tally-ext (on_subnet port) (on_subnet iface) l shared)
    ],
  )
]

-- The list of routers after a neighbour timed out.
record Safe (ours : ℕ) (a b : List PwospfRouter) : Type 0 where
  ids_eq : ids b ≡ ids a
  linked : Linked (interfaces ours a) (interfaces ours b)

Safe-refl : (ours : ℕ) (a : List PwospfRouter) → Safe ours a a
Safe-refl ours a = record { ids_eq = refl; linked = λ port h. h }

Safe-trans : (ours : ℕ) (a b c : List PwospfRouter) → Safe ours a b → Safe ours b c → Safe ours a c
Safe-trans ours a b c f g = record {
  ids_eq = g.ids_eq ∙ f.ids_eq;
  linked = λ port h. g.linked port (f.linked port h);
}

drop_our_link-Safe :
    (ours : ℕ) (iface : IfaceEntry) (rid : ℕ) (n : List PwospfRouter)
    → has ours (ids n) ≡ true
    → 0 < links iface ours n
    → (n' : List PwospfRouter) × (drop_our_link ours iface rid n ≡ some n') × Safe ours n n'
unfolding drop_our_link
drop_our_link-Safe ours iface rid n there linked =
    let (k, finds, f) = known ours n there in
    let (l, drops, kept) =
      drop_link-Linked iface rid f.router.interface_list (rw f.interfaces_eq at linked) in
    let r' : PwospfRouter = record f.router { interface_list = l } in
    (
      set n k r',
      simp (drop_our_link, finds, f.at, drops) refl,
      record {
        ids_eq = ids-set n k f.router r' f.at refl;
        linked = λ port h. rw (f.changed r' f.id) (kept port (rw f.interfaces_eq at h));
      },
    )

timedout_loop-Safe :
    (now interval ours : ℕ) (iface : IfaceEntry) (nbrs : List NbrRouter) (n : List PwospfRouter)
    → has ours (ids n) ≡ true
    → 0 < links iface ours n
    → (stay : List NbrRouter) × (n' : List PwospfRouter) × (b : Bool) × (timedout_loop now interval
          ours iface nbrs n
        ≡ some (stay, n', b))
      × Safe ours n n'
unfolding timedout_loop
timedout_loop-Safe now interval ours iface [] n there linked =
    ([], n, false, refl, Safe-refl ours n)
timedout_loop-Safe now interval ours iface (nbr ∷ nbrs) n there linked =
    elim (Bool-cases (is_silent now interval nbr)) [
      | inr heard ↦
          let (stay, n', b, runs, safe) =
            timedout_loop-Safe now interval ours iface nbrs n there linked in
          (nbr ∷ stay, n', b, simp (timedout_loop, heard, runs) refl, safe)
      | inl silent ↦
          let (n1, drops, safe1) = drop_our_link-Safe ours iface nbr.router_id n there linked in
          let (stay, n', b, runs, safe) =
            timedout_loop-Safe now interval ours iface nbrs n1 (ap (has ours) safe1.ids_eq ∙ there)
              (safe1.linked iface linked) in
          (
            stay,
            n',
            true,
            simp (timedout_loop, silent, drops, runs) refl,
            Safe-trans ours n n1 n' safe1 safe,
          )
    ]

locked_end :
    (b : Bool) (now : ℕ) (rs : RouterState)
    → rs.pwospf_router_list_lock ≡ lock_free
    → (if b
        then with_lock rs.pwospf_router_list_lock (propagate_pwospf_changes now rs)
        else some rs)
      ≡ (if b then propagate_pwospf_changes now rs else some rs)
locked_end false now rs free = refl
locked_end true now rs free = with_lock-free _ free (propagate_pwospf_changes now rs)

module _ (output : Packet → List ℕ → Bool) where
  hello_loop-Safe :
      (now : ℕ) (rs : RouterState) (l : List IfaceEntry)
      → has rs.router_id (ids rs.pwospf_router_list) ≡ true
      → rs.pwospf_router_list_lock ≡ lock_free
      → All (λ iface. 0 < links iface rs.router_id rs.pwospf_router_list) l
      → (l' : List IfaceEntry) × (rs' : RouterState) × (b : Bool) × (hello_loop output now rs l
          ≡ some (l', rs', b))
        × ((rs'.router_id ≡ rs.router_id) × (rs'.pwospf_router_list_lock ≡ lock_free))
        × Safe rs.router_id rs.pwospf_router_list rs'.pwospf_router_list
        × All (λ iface. 0 < links iface rs.router_id rs'.pwospf_router_list) l'
  unfolding hello_loop send_packet
  hello_loop-Safe now rs [] there free linked =
      ([], rs, false, refl, (refl, free), Safe-refl _ _, tt)
  hello_loop-Safe now rs (ie ∷ n) there free linked = elim (Bool-cases ie.is_active) [
    | inr down ↦
        let (l', rs', b, runs, id, safe, after) = hello_loop-Safe now rs n there free linked.1 in
        (
          ie ∷ l',
          rs',
          b,
          simp (hello_loop, down, runs) refl,
          id,
          safe,
          (safe.linked ie linked.0, after),
        )
    | inl up ↦
        let rs1 = (send_packet output rs (hello_packet rs ie) 66 ie.name).0 in
        let opened =
          with_lock-free {A = List NbrRouter × List PwospfRouter × Bool} rs.pwospf_router_list_lock
            free in
        let (stay, n1, here, runs1, safe1) =
          timedout_loop-Safe now rs.pwospf_hello_interval rs.router_id ie ie.nbr_routers
            rs.pwospf_router_list there linked.0 in
        let (l', rs', later, runs, id, safe, after) =
          hello_loop-Safe now (record rs1 { pwospf_router_list = n1 }) n
            (ap (has rs.router_id) safe1.ids_eq ∙ there) free
            (All-imp (λ iface. 0 < links iface rs.router_id rs.pwospf_router_list)
              (λ iface. 0 < links iface rs.router_id n1) n (λ iface h. safe1.linked iface h)
              linked.1) in
        (
          record ie { last_sent_hello = now; nbr_routers = stay } ∷ l',
          rs',
          here || later,
          simp (hello_loop, up, opened, runs1, runs) refl,
          id,
          Safe-trans rs.router_id rs.pwospf_router_list n1 rs'.pwospf_router_list safe1 safe,
          (safe.linked ie (safe1.linked ie linked.0), after),
        )
  ]

  pub broadcast_pwospf_hello_packet-Ready :
      (now : ℕ) (rs : RouterState)
      → Ready rs
      → (rs' : RouterState) × (broadcast_pwospf_hello_packet output now rs ≡ some rs') × Ready rs'
  unfolding broadcast_pwospf_hello_packet
  broadcast_pwospf_hello_packet-Ready now rs ready =
      let wf = ready.sound in
      let (l', rs1, timedout, runs1, (id, free), safe, after) =
        hello_loop-Safe now rs rs.if_list wf.ours ready.free wf.linked in
      let (rs', runs, ready') =
        propagate_if-Ready timedout now (record rs1 { if_list = l' })
          (record {
            sound = record {
              ours = rw (id, safe.ids_eq) wf.ours;
              once = rw safe.ids_eq wf.once;
              linked = rw id after;
            };
            free = free;
          }) in
      (
        rs',
        simp (broadcast_pwospf_hello_packet, runs1) (locked_end timedout now _ free ∙ runs),
        ready',
      )
