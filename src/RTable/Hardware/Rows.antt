-- ===== src/RTable/Hardware/Rows.antt =====
-- What `write_rtable_to_hw` leaves in the device: its rows are the active entries, in order.
use native.Mathlib.Nat.{add-zero, zero-add}
use osnt_plus.Prelude.{
  ℕ, zero, suc, ◌+◌, ◌≤◌, ◌<◌, ◌≡◌, ◌≢◌, refl, sym, ap, ◌∙◌, ◌⊎◌, inl, inr, Bool, true, false,
  Option, none, some, List, [], ◌∷◌, ◌++◌, arith, ◌==◌, ==_refl, if◌then◌else◌, bit_or, keep,
  get_elem?, All, Bool-cases, Option-cases, some_eq, some≢none,
}
use osnt_plus.State.{
  RtableEntry, Reg, RegWrite, write_reg, indirectwrdata_a_hi, indirectwrdata_a_low,
  indirectwrdata_b_hi, indirectwrdata_b_low, indirectaddress, indirectcommand, mac_hi, mac_low,
}
use osnt_plus.RTable.Hardware.{
  one_hot_port, skip_inactive, Row, zero_row, row_of, write_row, hw_loop, write_rtable_to_hw,
}

-- The device: four data registers, the row register, and the rows. A write of 1 to the command
-- register stores the data registers in the row whose address stands in the row register.
pub record Device : Type 0 where
  pub a_hi : ℕ
  pub a_low : ℕ
  pub b_hi : ℕ
  pub b_low : ℕ
  pub address : ℕ
  pub rows : ℕ → Row

-- The registers of the ports' hardware addresses stand apart from the tables.
abbrev pub device_write : Reg → ℕ → Device → Device
device_write indirectwrdata_a_hi v d = record d { a_hi = v }
device_write indirectwrdata_a_low v d = record d { a_low = v }
device_write indirectwrdata_b_hi v d = record d { b_hi = v }
device_write indirectwrdata_b_low v d = record d { b_low = v }
device_write indirectaddress v d = record d { address = v }
device_write indirectcommand v d =
    if v == 1
    then record d {
      rows = λ k.
          if k == d.address
          then record { ip = d.a_hi; mask = d.b_hi; next_hop = d.a_low; port = d.b_low }
          else d.rows k;
    }
    else d
device_write (mac_hi i) v d = d
device_write (mac_low i) v d = d

-- The device after the writes, oldest first.
unfoldable pub run_device : List RegWrite → Device → Device
run_device [] d = d
run_device (w ∷ ws) d = run_device ws (device_write w.reg w.value d)

run_device-append :
    (ws vs : List RegWrite) (d : Device) → run_device (ws ++ vs) d ≡ run_device vs (run_device ws d)
unfolding run_device
run_device-append [] vs d = refl
run_device-append (w ∷ ws) vs d = run_device-append ws vs (device_write w.reg w.value d)

pub run_device-write_reg :
    (r : Reg) (v : ℕ) (ws : List RegWrite) (d : Device)
    → run_device (write_reg r v ws) d ≡ device_write r v (run_device ws d)
unfolding write_reg run_device
run_device-write_reg r v ws d = run_device-append ws (record { reg = r; value = v } ∷ []) d

-- A round stores one row and leaves the others.
rows-write_row :
    (address i k : ℕ) (row : Row) (ws : List RegWrite) (d : Device)
    → (run_device (write_row address i row ws) d).rows k
      ≡ (if k == bit_or address i then row else (run_device ws d).rows k)
unfolding write_row
rows-write_row address i k row ws d = simp run_device-write_reg

abbrev pub active : List RtableEntry → List RtableEntry
active = keep (λ e. e.is_active)

skip-cases :
    (n : List RtableEntry)
    → ((skip_inactive n ≡ []) × (active n ≡ []))
      ⊎ ((e : RtableEntry) × (m : List RtableEntry) × (skip_inactive n ≡ e ∷ m)
          × (active n ≡ e ∷ active m))
unfolding skip_inactive
skip-cases [] = inl (refl, refl)
skip-cases (e ∷ n) = elim (Bool-cases e.is_active) [
  | inl on ↦ inr (e, n, ground arith, ground arith)
  | inr off ↦ rw off (skip-cases n)
]

-- The row that an active entry takes; a row past the last of them is zero.
unfoldable pub row_for : Option RtableEntry → Row
row_for none = zero_row
row_for (some e) = elim (one_hot_port e.iface) [ none ↦ zero_row | some port ↦ row_of e port ]

-- The rows of the table have different addresses.
abbrev pub Distinct : ℕ → ℕ → Type 0
Distinct width address =
    (j k : ℕ) → j < width → k < width → bit_or address j ≡ bit_or address k → j ≡ k

abbrev rows_after : List RegWrite → Device → ℕ → Row
rows_after ws d = (run_device ws d).rows

module _ (width address : ℕ) (distinct : Distinct width address) (d : Device) where
  here :
      (i : ℕ) (row : Row) (ws : List RegWrite)
      → rows_after (write_row address i row ws) d (bit_or address i) ≡ row
  here i row ws = rw (rows-write_row, ==_refl) refl

  elsewhere :
      (i k : ℕ) (row : Row) (ws : List RegWrite)
      → i < width
      → k < i
      → rows_after (write_row address i row ws) d (bit_or address k)
        ≡ rows_after ws d (bit_or address k)
  elsewhere i k row ws hi hk = rw (rows-write_row, other) refl
    where
      other : (bit_or address k == bit_or address i) ≡ false
      other = ground (arith, distinct k i)

  -- What a run of the loop from row `i` on guarantees.
  record Written (rounds i : ℕ) (n : List RtableEntry) (log log' : List RegWrite) : Type 0 where
    kept :
        (k : ℕ) → k < i → rows_after log' d (bit_or address k) ≡ rows_after log d (bit_or address k)
    filled :
        (k : ℕ)
        → k < rounds
        → rows_after log' d (bit_or address (i + k)) ≡ row_for (get_elem? (active n) k)

  next : (i k : ℕ) → i + suc k ≡ i + 1 + k
  next i k = omega arith

  -- One round, then the rest.
  next_round :
      (rounds i : ℕ) (n m : List RtableEntry) (row : Row) (log log' : List RegWrite)
      → i < width
      → row ≡ row_for (get_elem? (active n) 0)
      → ((k : ℕ) → get_elem? (active m) k ≡ get_elem? (active n) (suc k))
      → Written rounds (i + 1) m (write_row address i row log) log'
      → Written (suc rounds) i n log log'
  next_round rounds i n m row log log' hi e tail w = record {
    kept = λ k h. w.kept k (omega arith) ∙ elsewhere i k row log hi h;
    filled = fill;
  }
    where
      fill :
          (k : ℕ)
          → k < suc rounds
          → rows_after log' d (bit_or address (i + k)) ≡ row_for (get_elem? (active n) k)
      fill zero h = rw (add-zero i) (w.kept i (omega arith) ∙ here i row log ∙ e)
      fill (suc k) h = rw (next i k) (w.filled k (omega arith) ∙ ap row_for (tail k))

  port_row :
      (e : RtableEntry) (port : ℕ)
      → one_hot_port e.iface ≡ some port
      → row_of e port ≡ row_for (some e)
  unfolding row_for
  port_row e port h = rw (h, row_for) refl

  hw_loop-Written :
      (rounds i : ℕ) (n : List RtableEntry) (log : List RegWrite) {log' : List RegWrite}
      → i + rounds ≤ width
      → hw_loop address rounds i (skip_inactive n) log ≡ some log'
      → Written rounds i n log log'
  unfolding hw_loop row_for write_row skip_inactive
  hw_loop-Written zero i n log {log'} hi h = record {
    kept = λ k _. ap (λ o. rows_after o d (bit_or address k)) (sym (some_eq h));
    filled = λ k lt. absurd (omega arith);
  }
  hw_loop-Written (suc rounds) i n log {log'} hi h = elim (skip-cases n) [
    | inl (e, a) ↦
        let h' = rw e at h in
        next_round rounds i n [] zero_row log log' (omega arith) (rw (a, row_for) refl)
          (λ k. rw a refl)
          (hw_loop-Written rounds (i + 1) [] (write_row address i zero_row log) (omega arith) h')
    | inr (e, m, s, a) ↦ elim (Option-cases (one_hot_port e.iface)) [
      | inl fault ↦ absurd (some≢none (rw (s, hw_loop, fault) at h))
      | inr (port, known) ↦
          next_round rounds i n m (row_of e port) log log' (omega arith)
            (port_row e port known ∙ rw a refl) (λ k. rw a refl)
            (hw_loop-Written rounds (i + 1) m (write_row address i (row_of e port) log)
              (omega arith) (rw (s, hw_loop, known) at h))
    ]
  ]

-- The interface of every active entry has a port number.
abbrev pub KnownPorts : List RtableEntry → Type 0
KnownPorts = All (λ e. e.is_active ≡ true → one_hot_port e.iface ≢ none)

abbrev Ready : List RtableEntry → Type 0
Ready [] = Unit
Ready (e ∷ m) = (one_hot_port e.iface ≢ none) × KnownPorts m

Ready-if :
    (b : Bool) (xs ys : List RtableEntry)
    → (b ≡ true → Ready xs)
    → (b ≡ false → Ready ys)
    → Ready (if b then xs else ys)
Ready-if true xs ys f g = f refl
Ready-if false xs ys f g = g refl

Ready-skip : (n : List RtableEntry) → KnownPorts n → Ready (skip_inactive n)
unfolding skip_inactive
Ready-skip [] known = tt
Ready-skip (x ∷ n) known =
    Ready-if x.is_active (x ∷ n) (skip_inactive n) (λ on. (known.0 on, known.1))
      (λ _. Ready-skip n known.1)

hw_loop_total :
    (address rounds i : ℕ) (n : List RtableEntry) (log : List RegWrite)
    → KnownPorts n
    → (log' : List RegWrite) × (hw_loop address rounds i (skip_inactive n) log ≡ some log')
unfolding hw_loop skip_inactive
hw_loop_total address zero i n log known = (log, refl)
hw_loop_total address (suc rounds) i n log known = elim (skip-cases n) [
  | inl (e, a) ↦
      rw (e, hw_loop)
        (hw_loop_total address rounds (i + 1) [] (write_row address i zero_row log) tt)
  | inr (e, m, s, a) ↦
      let ready = rw s at (Ready-skip n known) in
      elim (Option-cases (one_hot_port e.iface)) [
        | inl fault ↦ absurd (ready.0 fault)
        | inr (port, ok) ↦
            rw (s, hw_loop, ok)
              (hw_loop_total address rounds (i + 1) m (write_row address i (row_of e port) log)
                ready.1)
      ]
]

pub write_rtable_to_hw_total :
    (width address : ℕ) (rtable : List RtableEntry) (log : List RegWrite)
    → KnownPorts rtable
    → (log' : List RegWrite) × (write_rtable_to_hw width address rtable log ≡ some log')
unfolding write_rtable_to_hw
write_rtable_to_hw_total width address rtable log known =
    hw_loop_total address width 0 rtable log known

-- Where the rows have different addresses and every active entry is on a known port, the writes
-- succeed, and afterwards row k of the device holds the k-th active entry, or zeros where there are
-- fewer.
pub write_rtable_to_hw-rows :
    (width address : ℕ) (rtable : List RtableEntry) (log : List RegWrite) (d : Device)
    → Distinct width address
    → KnownPorts rtable
    → (log' : List RegWrite) × (write_rtable_to_hw width address rtable log ≡ some log')
      × ((k : ℕ)
          → k < width
          → rows_after log' d (bit_or address k) ≡ row_for (get_elem? (active rtable) k))
unfolding write_rtable_to_hw
write_rtable_to_hw-rows width address rtable log d distinct known =
    let (log', e) = hw_loop_total address width 0 rtable log known in
    let w = hw_loop-Written width address distinct d width 0 rtable log (omega arith) e in
    (log', e, λ k h. rw (zero-add k) at (w.filled k h))
