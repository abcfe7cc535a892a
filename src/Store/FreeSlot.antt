-- ===== src/Store/FreeSlot.antt =====
-- A dimension below its limit has a free slot: `first_available_slot` of
-- src/automation/store/capacity.rs.
use aictx.Base.{
  ℕ, zero, suc, ◌≤◌, ◌<◌, ◌≡◌, refl, Bool, true, false, not, ◌&&◌, none, some, List, [], ◌∷◌, ◌==◌,
  leb, all, and_true, arith, inl, inr, Bool-cases, Option-cases, nat_eq, ==_iff, if◌then◌else◌,
}
use aictx.Store.Tables.{ReservationRow}
use aictx.Store.Schema.{any_row, counts_for, takes_slot}
use aictx.Store.Slots.{
  Dimension, count_rows, following_slots, candidates, smallest, first_available_slot, usage,
}

-- How many of the slots from 1 to `n` are taken.
covered : Dimension → List ReservationRow → ℕ → ℕ
covered d rows zero = 0
covered d rows (suc n) =
    let rest = covered d rows n in
    if any_row (takes_slot d.label d.key (suc n)) rows then suc rest else rest

-- A row takes one slot.
covered-row :
    (d : Dimension) (row : ReservationRow) (rows : List ReservationRow) (n : ℕ)
    → (covered d (row ∷ rows) n ≤ suc (covered d rows n))
      × (n < row.slot → covered d (row ∷ rows) n ≤ covered d rows n)
unfolding covered any_row
covered-row d row rows zero = ground arith
covered-row d row rows (suc n) =
    let (one, still) = covered-row d row rows n in
    elim (Bool-cases (row.slot == suc n)) [
      | inl same ↦ ground (arith, ==_iff row.slot (suc n))
      | inr other ↦ ground (arith, ==_iff row.slot (suc n))
    ]

covered-skip :
    (d : Dimension) (row : ReservationRow) (rows : List ReservationRow) (n : ℕ)
    → counts_for d.label d.key row ≡ false
    → covered d (row ∷ rows) n ≡ covered d rows n
unfolding covered any_row
covered-skip d row rows zero other = refl
covered-skip d row rows (suc n) other = ground (arith, covered-skip d row rows n other)

covered-usage :
    (d : Dimension) (rows : List ReservationRow) (n : ℕ) → covered d rows n ≤ usage d rows
unfolding covered any_row count_rows
covered-usage d [] zero = ground arith
covered-usage d [] (suc n) = ground (arith, covered-usage d [] n)
covered-usage d (row ∷ rows) n = elim (Bool-cases (counts_for d.label d.key row)) [
  | inl counted ↦ ground (arith, covered-usage d rows n, (covered-row d row rows n).0)
  | inr other ↦ ground (arith, covered-usage d rows n, covered-skip d row rows n other)
]

-- A slot of the dimension that no live reservation has.
unfoldable pub usable : Dimension → List ReservationRow → ℕ → Bool
unfolding any_row
usable d rows slot =
    leb 1 slot && leb slot d.limit && not (any_row (takes_slot d.label d.key slot) rows)

smallest-all :
    (test : ℕ → Bool) (slots : List ℕ) (slot : ℕ)
    → all test slots ≡ true
    → smallest slots ≡ some slot
    → test slot ≡ true
unfolding smallest
smallest-all test [] slot every h = absurd (ground arith)
smallest-all test (s ∷ ss) slot every h = elim (Option-cases (smallest ss)) [
  | inl last ↦ ground arith
  | inr (least, found) ↦
      let rest : test least ≡ true = smallest-all test ss least (and_true every).1 found in
      elim (Bool-cases (leb s least)) [ inl first ↦ ground arith | inr later ↦ ground arith ]
]

smallest-none : (slots : List ℕ) → smallest slots ≡ none → slots ≡ []
unfolding smallest
smallest-none [] h = refl
smallest-none (s ∷ ss) h = absurd (ground (arith, Option-cases (smallest ss)))

following_slots-all :
    (d : Dimension) (rows more : List ReservationRow)
    → all (usable d rows) (following_slots d rows more) ≡ true
unfolding following_slots usable any_row
following_slots-all d rows [] = refl
following_slots-all d rows (row ∷ more) = ground (arith, following_slots-all d rows more)

-- Without a candidate behind it, the slot above a taken one is taken.
following_slots-none :
    (d : Dimension) (rows more : List ReservationRow) (slot : ℕ)
    → following_slots d rows more ≡ []
    → slot < d.limit
    → any_row (takes_slot d.label d.key slot) more ≡ true
    → any_row (takes_slot d.label d.key (suc slot)) rows ≡ true
unfolding following_slots any_row
following_slots-none d rows [] slot none_left below taken = absurd (ground arith)
following_slots-none d rows (row ∷ more) slot none_left below taken =
    elim (Bool-cases (takes_slot d.label d.key slot row)) [
      | inl here ↦ ground (arith, ==_iff row.slot slot)
      | inr there ↦ ground (arith, following_slots-none d rows more slot)
    ]

module _ (d : Dimension) (rows : List ReservationRow) (full : candidates d rows ≡ []) where
  full-taken :
      (slot : ℕ) → slot < d.limit → any_row (takes_slot d.label d.key (suc slot)) rows ≡ true
  unfolding candidates any_row following_slots
  full-taken zero below = ground arith
  full-taken (suc slot) below =
      following_slots-none d rows rows (suc slot) (ground arith) below
        (full-taken slot (omega arith))

  full-covered : (n : ℕ) → n ≤ d.limit → covered d rows n ≡ n
  unfolding covered
  full-covered zero below = refl
  full-covered (suc n) below =
      ground (arith, full-covered n (omega arith), full-taken n (omega arith))

pub first_available_slot-usable :
    (d : Dimension) (rows : List ReservationRow)
    → usage d rows < d.limit
    → (slot : ℕ) × (first_available_slot d rows ≡ some slot) × (usable d rows slot ≡ true)
unfolding first_available_slot candidates usable
first_available_slot-usable d rows below = elim (Option-cases (smallest (candidates d rows))) [
  | inl nothing ↦ absurd (
      omega (
        arith,
        covered-usage d rows d.limit,
        full-covered d rows (smallest-none (candidates d rows) nothing) d.limit (omega arith),
      ))
  | inr (slot, found) ↦
      let every : all (usable d rows) (candidates d rows) ≡ true =
        ground (arith, following_slots-all d rows rows) in
      (slot, found, smallest-all (usable d rows) (candidates d rows) slot every found)
]
