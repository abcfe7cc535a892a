-- ===== src/Store/Reserve.antt =====
-- The rows that a claim inserts are admitted by the schema: the loop of `claim` in
-- src/automation/store/capacity.rs.
use aictx.Base.{
  ℕ, zero, suc, ◌≡◌, refl, Bool, true, false, not, ◌&&◌, some, List, [], ◌∷◌, map, Text, ◌==◌, leb,
  all, arith, inl, inr, ◌⊎◌, Bool-cases, Option-cases, Result-cases, and_true, Result, ok, err,
  text_eq, nat_eq, ==_iff, ◌++◌, subst,
}
use aictx.Model.ProfileUid.{encode_crockford}
use aictx.Store.Tables.{
  StoreError, DimensionLabel, StoredTimestamp, LeaseRow, ReservationRow, label_eq,
  ReservationState-discrete,
}
use aictx.Store.Ids.{
  Randomness, capacity_prefix, random_id, allocate, allocate_id, collision_retries,
}
use aictx.Store.Schema.{
  any_row, has_id, column_of, admits_row, length_between, is_reservation_id, stamp_ok, texts_ok,
}
use aictx.Store.Columns.{
  FillsSixteen, lease_ok, lease_ok-columns, lease_column, lease_column-length,
  encode_crockford-is_reservation_id,
}
use aictx.Store.Slots.{Dimension}
use aictx.Store.Graph.{find_lease}
use aictx.Store.Capacity.{new_reservation, insert, reserve}
use aictx.Store.FreeSlot.{usable}

-- The two failures that random identifiers have.
abbrev pub EntropyFailure : {A : Type 0} → Result StoreError A → Type 0
EntropyFailure r =
    (r ≡ err StoreError.entropy_unavailable) ⊎ (r ≡ err StoreError.identifier_collision)

-- The identifier that is given is new, and passes the CHECK of its column.
allocate-new :
    (fill : Randomness) (exists : Text → Bool) (retries drawn : ℕ)
    → FillsSixteen fill
    → EntropyFailure (allocate fill capacity_prefix exists retries drawn)
      ⊎ ((id : Text) × (next : ℕ) × (allocate fill capacity_prefix exists retries drawn
            ≡ ok (id, next))
          × (exists id ≡ false)
          × (is_reservation_id id ≡ true))
unfolding allocate random_id
allocate-new fill exists zero drawn sixteen = inl (inr refl)
allocate-new fill exists (suc retries) drawn sixteen = elim (Option-cases (fill drawn)) [
  | inl failed ↦ inl (inl (ground arith))
  | inr (bytes, filled) ↦ elim (Bool-cases (exists (capacity_prefix ++ encode_crockford bytes))) [
    | inl old ↦ elim (allocate-new fill exists retries (suc drawn) sixteen) [
      | inl (inl empty) ↦ inl (inl (ground arith))
      | inl (inr collided) ↦ inl (inr (ground arith))
      | inr (id, next, given, new, checked) ↦ inr (id, next, ground arith, new, checked)
    ]
    | inr new ↦ inr (
      capacity_prefix ++ encode_crockford bytes,
      suc drawn,
      ground arith,
      new,
      encode_crockford-is_reservation_id bytes (sixteen drawn bytes filled),
    )
  ]
]

-- A dimension that a lease may reserve: its key is the lease's, and the lease has none of it yet.
unfoldable pub reservable : LeaseRow → List ReservationRow → Dimension → Bool
unfolding lease_column any_row
reservable lease rows d =
    leb d.limit 4294967295
    && lease_column d.label lease == d.key
    && not (any_row (λ row. row.lease_id == lease.lease_id && row.dimension == d.label) rows)

unfoldable pub distinct_labels : List Dimension → Bool
distinct_labels [] = true
distinct_labels (d ∷ ds) = all (λ other. not (other.label == d.label)) ds && distinct_labels ds

module _ (lease : LeaseRow) (timestamp : StoredTimestamp) where
  column_of-new :
      (id : Text) (d : Dimension) (slot : ℕ)
      → column_of d.label (new_reservation lease timestamp id d slot) ≡ lease_column d.label lease
  unfolding lease_column
  column_of-new id d slot =
      elim (d.label)
        as (λ label.
          column_of label (new_reservation lease timestamp id d slot) ≡ lease_column label lease) [
            | DimensionLabel.profile ↦ refl
            | DimensionLabel.provider ↦ refl
            | DimensionLabel.caller ↦ refl
            | DimensionLabel.host ↦ refl
          ]

  key-length :
      (rows : List ReservationRow) (d : Dimension)
      → lease_ok lease ≡ true
      → reservable lease rows d ≡ true
      → length_between 1 256 d.key ≡ true
  unfolding reservable
  key-length rows d good free =
      let same = (and_true (and_true free).0).1 in
      subst (λ key. length_between 1 256 key ≡ true)
        ((==_iff (lease_column d.label lease) d.key).0 same)
        (lease_column-length d.label lease good)

  texts_ok-new :
      (rows : List ReservationRow) (id : Text) (d : Dimension) (slot : ℕ)
      → lease_ok lease ≡ true
      → stamp_ok timestamp ≡ true
      → is_reservation_id id ≡ true
      → reservable lease rows d ≡ true
      → texts_ok (new_reservation lease timestamp id d slot) ≡ true
  unfolding texts_ok
  texts_ok-new rows id d slot good stamped checked free =
      rw (checked, (lease_ok-columns lease good).0, key-length rows d good free, stamped) refl

  admits_row-new :
      (rows : List ReservationRow) (id : Text) (d : Dimension) (slot : ℕ)
      → lease_ok lease ≡ true
      → stamp_ok timestamp ≡ true
      → any_row (has_id id) rows ≡ false
      → is_reservation_id id ≡ true
      → usable d rows slot ≡ true
      → reservable lease rows d ≡ true
      → admits_row rows (new_reservation lease timestamp id d slot) ≡ true
  unfolding admits_row usable reservable ReservationState-discrete
  admits_row-new rows id d slot good stamped new checked fits free =
      let texts = texts_ok-new rows id d slot good stamped checked free in
      ground (arith, column_of-new id d slot)

  module _ (id : Text) (d : Dimension) (slot : ℕ) (rows : List ReservationRow) where
    row : ReservationRow
    row = new_reservation lease timestamp id d slot

    usable-other :
        (other : Dimension) (s : ℕ)
        → (other.label == d.label) ≡ false
        → usable other rows s ≡ true
        → usable other (row ∷ rows) s ≡ true
    unfolding usable any_row row
    usable-other other s differ fits =
        ground (arith, ==_iff other.label d.label, ==_iff d.label other.label)

    reservable-other :
        (other : Dimension)
        → (other.label == d.label) ≡ false
        → reservable lease rows other ≡ true
        → reservable lease (row ∷ rows) other ≡ true
    unfolding reservable any_row row
    reservable-other other differ fits =
        ground (arith, ==_iff other.label d.label, ==_iff d.label other.label)

-- The rows behind an insertion for each dimension.
abbrev pub Added :
    LeaseRow → StoredTimestamp → List Dimension → List ReservationRow → List ReservationRow → Type 0
Added lease timestamp [] rows end = end ≡ rows
Added lease timestamp (d ∷ ds) rows end =
    (id : Text) × (slot : ℕ) × Added lease timestamp ds
      (new_reservation lease timestamp id d slot ∷ rows) end

dimension_of : Dimension × ℕ → Dimension
dimension_of p = p.0

is_usable : List ReservationRow → Dimension × ℕ → Bool
is_usable rows p = usable p.0 rows p.1

module _ (lease : LeaseRow) (timestamp : StoredTimestamp) where
  module _ (id : Text) (d : Dimension) (slot : ℕ) (rows : List ReservationRow) where
    all-other :
        (plan : List (Dimension × ℕ))
        → all (λ (other : Dimension). not (other.label == d.label)) (map dimension_of plan) ≡ true
        → all (is_usable rows) plan ≡ true
        → all (reservable lease rows) (map dimension_of plan) ≡ true
        → (all (is_usable (row lease timestamp id d slot rows ∷ rows)) plan ≡ true)
          × (all
                (reservable lease (row lease timestamp id d slot rows ∷ rows))
                (map dimension_of plan)
              ≡ true)
    unfolding dimension_of is_usable
    all-other [] differ fit free = (refl, refl)
    all-other ((other, s) ∷ plan) differ fit free =
        let (fit_next, free_next) = all-other plan (ground arith) (ground arith) (ground arith) in
        let apart : (other.label == d.label) ≡ false = ground arith in
        (
          ground (arith, fit_next, usable-other lease timestamp id d slot rows other s apart),
          ground (arith, free_next, reservable-other lease timestamp id d slot rows other apart),
        )

  -- With a plan that fits, the loop ends with a row for every dimension or for want of an
  -- identifier: the schema refuses no row.
  pub reserve-Added :
      (fill : Randomness) (leases : List LeaseRow) (lease_id : Text) (drawn : ℕ)
      (plan : List (Dimension × ℕ)) (rows : List ReservationRow)
      → FillsSixteen fill
      → lease_ok lease ≡ true
      → stamp_ok timestamp ≡ true
      → find_lease leases lease_id ≡ some lease
      → all (λ (p : Dimension × ℕ). usable p.0 rows p.1) plan ≡ true
      → all (reservable lease rows) (map (λ (p : Dimension × ℕ). p.0) plan) ≡ true
      → distinct_labels (map (λ (p : Dimension × ℕ). p.0) plan) ≡ true
      → EntropyFailure (reserve fill leases lease_id timestamp drawn plan rows)
        ⊎ ((end : List ReservationRow) × (reserve fill leases lease_id timestamp drawn plan rows
              ≡ ok end)
            × Added lease timestamp (map (λ (p : Dimension × ℕ). p.0) plan) rows end)
  unfolding reserve allocate_id insert distinct_labels row is_usable dimension_of
  reserve-Added fill leases lease_id drawn [] rows sixteen good timed found fit free distinct =
      inr (rows, refl, refl)
  reserve-Added fill leases lease_id drawn ((d, slot) ∷ plan) rows sixteen good timed found fit free
        distinct =
      let exists = λ (id : Text). any_row (has_id id) rows in
      elim (allocate-new fill exists collision_retries drawn sixteen) [
        | inl (inl empty) ↦ inl (inl (ground arith))
        | inl (inr collided) ↦ inl (inr (ground arith))
        | inr (id, next, given, new, checked) ↦
            let admitted =
              admits_row-new lease timestamp rows id d slot good timed new checked (and_true fit).0
                (and_true free).0 in
            let (fits, frees) =
              all-other id d slot rows plan (and_true distinct).0 (and_true fit).1
                (and_true free).1 in
            elim (reserve-Added fill leases lease_id next plan
              (row lease timestamp id d slot rows ∷ rows) sixteen good timed found fits frees
              (and_true distinct).1) [
                | inl (inl empty) ↦ inl (inl (ground arith))
                | inl (inr collided) ↦ inl (inr (ground arith))
                | inr (end, ended, added) ↦ inr (end, ground arith, (id, slot, added))
              ]
      ]

  -- A loop that ends has inserted a row for every dimension.
  pub reserve-ok-Added :
      (fill : Randomness) (leases : List LeaseRow) (lease_id : Text) (drawn : ℕ)
      (plan : List (Dimension × ℕ)) (rows end : List ReservationRow)
      → find_lease leases lease_id ≡ some lease
      → reserve fill leases lease_id timestamp drawn plan rows ≡ ok end
      → Added lease timestamp (map (λ (p : Dimension × ℕ). p.0) plan) rows end
  unfolding reserve insert
  reserve-ok-Added fill leases lease_id drawn [] rows end found h = ground arith
  reserve-ok-Added fill leases lease_id drawn ((d, slot) ∷ plan) rows end found h =
      elim (Result-cases
        (allocate_id fill capacity_prefix (λ id. any_row (has_id id) rows) drawn)) [
          | inr (failure, failed) ↦ absurd (ground arith)
          | inl ((id, next), given) ↦
              let row = new_reservation lease timestamp id d slot in
              elim (Bool-cases (admits_row rows row)) [
                | inl admitted ↦ (
                  id,
                  slot,
                  reserve-ok-Added fill leases lease_id next plan (row ∷ rows) end found
                      (ground arith),
                )
                | inr refused ↦ absurd (ground arith)
              ]
        ]
