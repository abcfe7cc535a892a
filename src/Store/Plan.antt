-- ===== src/Store/Plan.antt =====
-- The plan of a claim and the policy's view of capacity: `reservation_plan` and `available` of
-- src/automation/store/capacity.rs against `CapacityClaim::permits` of src/automation/policy.rs.
use aictx.Base.{
  ℕ, ◌≡◌, refl, Bool, true, false, none, some, List, [], ◌∷◌, map, ltb, all, arith, inl, inr,
  Bool-cases, and_true, ltb→lt, ok, ap,
}
use aictx.Policy.Types.{CapacityUsage, CapacityClaim, claim_permits}
use aictx.Store.Tables.{ReservationRow}
use aictx.Store.Slots.{
  Dimension, usage, profile_dimension, provider_dimension, caller_dimension, host_dimension,
  dimensions_of, plan_dimensions, reservation_plan,
}
use aictx.Store.FreeSlot.{usable, first_available_slot-usable}

-- The live reservations that a claim competes with, as the policy counts them.
unfoldable pub usage_of : CapacityClaim → List ReservationRow → CapacityUsage
usage_of claim rows = record {
  profile = usage (profile_dimension claim) rows;
  provider = usage (provider_dimension claim) rows;
  caller = usage (caller_dimension claim) rows;
  host = usage (host_dimension claim) rows;
}

-- A plan for the dimensions, each with a free slot within its limit.
pub record CapacityPlan (rows : List ReservationRow) (ds : List Dimension) : Type 0 where
  pub plan : List (Dimension × ℕ)
  pub planned : plan_dimensions rows ds ≡ ok (some plan)
  pub dimensions : map (λ (p : Dimension × ℕ). p.0) plan ≡ ds
  pub slots : all (λ (p : Dimension × ℕ). usable p.0 rows p.1) plan ≡ true

module _ (rows : List ReservationRow) where
  has_room : Dimension → Bool
  has_room d = ltb (usage d rows) d.limit

  plan_dimensions-CapacityPlan :
      (ds : List Dimension) → all has_room ds ≡ true → CapacityPlan rows ds
  unfolding plan_dimensions has_room
  plan_dimensions-CapacityPlan [] h = record {
    plan = [];
    planned = refl;
    dimensions = refl;
    slots = refl;
  }
  plan_dimensions-CapacityPlan (d ∷ ds) h =
      let (room, more) = and_true h in
      let rest = plan_dimensions-CapacityPlan ds more in
      let (slot, found, fits) =
        first_available_slot-usable d rows (ltb→lt (usage d rows) d.limit room) in
      record {
        plan = (d, slot) ∷ rest.plan;
        planned = ground (arith, rest.planned);
        dimensions = ap (λ (more : List Dimension). d ∷ more) rest.dimensions;
        slots = ground (arith, rest.slots);
      }

  plan_dimensions-none :
      (ds : List Dimension) → all has_room ds ≡ false → plan_dimensions rows ds ≡ ok none
  unfolding plan_dimensions has_room
  plan_dimensions-none [] h = absurd (ground arith)
  plan_dimensions-none (d ∷ ds) h = elim (Bool-cases (has_room d)) [
    | inl room ↦
        let (slot, found, fits) =
          first_available_slot-usable d rows (ltb→lt (usage d rows) d.limit room) in
        ground (arith, plan_dimensions-none ds)
    | inr full ↦ ground arith
  ]

-- The store plans a reservation exactly when the policy permits the claim on the counted usage: if
-- it does, every dimension gets a slot between one and its limit that no live reservation of the
-- same dimension and key has; if not, there is no plan. No state of the table makes the plan fail.
pub reservation_plan-permits :
    (rows : List ReservationRow) (claim : CapacityClaim)
    → (claim_permits claim (usage_of claim rows) ≡ true → CapacityPlan rows (dimensions_of claim))
      × (claim_permits claim (usage_of claim rows) ≡ false → reservation_plan rows claim ≡ ok none)
unfolding reservation_plan usage_of claim_permits has_room
reservation_plan-permits rows claim = (
  λ permitted. plan_dimensions-CapacityPlan rows (dimensions_of claim) (ground arith),
  λ refused. plan_dimensions-none rows (dimensions_of claim) (ground arith),
)
