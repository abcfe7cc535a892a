-- ===== src/Store/Slots.antt =====
-- The slot of a new reservation: `first_available_slot` and `reservation_plan` of
-- src/automation/store/capacity.rs.
use aictx.Base.{
  ℕ, suc, Bool, not, ◌&&◌, Option, none, some, List, [], ◌∷◌, ◌++◌, Text, leb, ltb, Result, ok,
  ok_or, ◌>>=◌, if◌then◌else◌,
}
use aictx.Policy.Digest.{provider_label}
use aictx.Policy.Types.{CapacityClaim}
use aictx.Store.Tables.{StoreError, DimensionLabel, ReservationRow, label_eq}
use aictx.Store.Schema.{any_row, counts_for, takes_slot}

pub record Dimension : Type 0 where
  pub label : DimensionLabel
  pub key : Text
  pub limit : ℕ

-- `SELECT count(*) FROM ... WHERE ...`.
unfoldable pub count_rows {ℓ} : {A : Type ℓ} → (A → Bool) → List A → ℕ
count_rows test [] = 0
count_rows test (row ∷ rows) =
    let rest = count_rows test rows in if test row then suc rest else rest

-- The slots behind the live ones that are free: the second SELECT of the union.
unfoldable pub following_slots : Dimension → List ReservationRow → List ReservationRow → List ℕ
unfolding any_row
following_slots d rows [] = []
following_slots d rows (current ∷ more) =
    let rest = following_slots d rows more in
    if (counts_for d.label d.key current
      && ltb current.slot d.limit
      && not (any_row (takes_slot d.label d.key (suc current.slot)) rows))
    then suc current.slot ∷ rest
    else rest

unfoldable pub candidates : Dimension → List ReservationRow → List ℕ
unfolding any_row following_slots
candidates d rows =
    (if any_row (takes_slot d.label d.key 1) rows then [] else 1 ∷ [])
    ++ following_slots d rows rows

-- `ORDER BY candidate LIMIT 1`.
unfoldable pub smallest : List ℕ → Option ℕ
smallest [] = none
smallest (s ∷ ss) = elim (smallest ss) [
  | none ↦ some s
  | some least ↦ some (if leb s least then s else least)
]

unfoldable pub first_available_slot : Dimension → List ReservationRow → Option ℕ
unfolding candidates smallest
first_available_slot d rows = smallest (candidates d rows)

-- The four dimensions of a claim, in the order in which they are reserved.
abbrev pub profile_dimension : CapacityClaim → Dimension
profile_dimension claim = record {
  label = DimensionLabel.profile;
  key = claim.profile_uid;
  limit = claim.limits.profile;
}

abbrev pub provider_dimension : CapacityClaim → Dimension
provider_dimension claim = record {
  label = DimensionLabel.provider;
  key = provider_label claim.provider;
  limit = claim.limits.provider;
}

abbrev pub caller_dimension : CapacityClaim → Dimension
caller_dimension claim = record {
  label = DimensionLabel.caller;
  key = claim.caller_subject;
  limit = claim.limits.caller;
}

abbrev pub host_dimension : CapacityClaim → Dimension
host_dimension claim = record {
  label = DimensionLabel.host;
  key = claim.host_identity;
  limit = claim.limits.host;
}

abbrev pub dimensions_of : CapacityClaim → List Dimension
dimensions_of claim =
    profile_dimension claim
    ∷ provider_dimension claim
    ∷ caller_dimension claim
    ∷ host_dimension claim
    ∷ []

abbrev pub usage : Dimension → List ReservationRow → ℕ
unfolding count_rows
usage d rows = count_rows (counts_for d.label d.key) rows

-- The loop of `reservation_plan`: every dimension with its slot, or none when one is full.
unfoldable pub plan_dimensions :
    List ReservationRow → List Dimension → Result StoreError (Option (List (Dimension × ℕ)))
unfolding count_rows first_available_slot
plan_dimensions rows [] = ok (some [])
plan_dimensions rows (d ∷ ds) =
    let rest = plan_dimensions rows ds in
    if leb d.limit (usage d rows) then ok none else do
      slot ← ok_or (first_available_slot d rows) StoreError.integrity_check_failed
      planned ← rest
      ok (elim planned [ none ↦ none | some more ↦ some ((d, slot) ∷ more) ])

unfoldable pub reservation_plan :
    List ReservationRow → CapacityClaim → Result StoreError (Option (List (Dimension × ℕ)))
unfolding plan_dimensions
reservation_plan rows claim = plan_dimensions rows (dimensions_of claim)
