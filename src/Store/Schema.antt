-- ===== src/Store/Schema.antt =====
-- The conditions under which the database takes a reservation: the CHECKs and unique indices of
-- `capacity_reservations` in src/automation/store/schema_v1.sql and the trigger
-- `capacity_reservations_insert_held` of schema_v3.sql. A text is its
-- bytes, which are its characters for the ASCII texts that the contracts accept.
use aictx.Base.{
  ℕ, Bool, true, false, not, ◌&&◌, ◌||◌, Option, none, some, List, [], ◌∷◌, Text, codes, ◌==◌, leb,
  length, take, drop, all, starts_with, nat_eq, text_eq,
}
use aictx.Contracts.Temporal.{last_is}
use aictx.Model.ProfileUid.{is_leading, is_crockford}
use aictx.Policy.Digest.{provider_label}
use aictx.Store.Tables.{
  ReservationState, DimensionLabel, StoredTimestamp, ReservationRow, reservation_state_eq, label_eq,
}

-- `EXISTS(SELECT 1 FROM ... WHERE ...)`.
unfoldable pub any_row {ℓ} : {A : Type ℓ} → (A → Bool) → List A → Bool
any_row test [] = false
any_row test (row ∷ rows) = test row || any_row test rows

-- `state <> 'RELEASED'`.
abbrev pub is_live : ReservationRow → Bool
is_live row = not (row.state == ReservationState.released)

-- A live reservation of a dimension and a key.
abbrev pub counts_for : DimensionLabel → Text → ReservationRow → Bool
counts_for label key row = row.dimension == label && row.key == key && is_live row

abbrev pub has_id : Text → ReservationRow → Bool
has_id id row = row.reservation_id == id

abbrev pub of_lease : Text → ReservationRow → Bool
of_lease lease_id row = row.lease_id == lease_id

-- A live reservation of one slot: what `capacity_reservations_one_live_slot` indexes.
abbrev pub takes_slot : DimensionLabel → Text → ℕ → ReservationRow → Bool
takes_slot label key slot row = counts_for label key row && row.slot == slot

abbrev pub column_of : DimensionLabel → ReservationRow → Text
column_of DimensionLabel.provider row = provider_label row.provider
column_of DimensionLabel.profile row = row.profile_uid
column_of DimensionLabel.caller row = row.authenticated_caller
column_of DimensionLabel.host row = row.host_identity

abbrev pub is_unset {ℓ} : {A : Type ℓ} → Option A → Bool
is_unset none = true
is_unset (some a) = false

-- `length(x) BETWEEN a AND b`.
abbrev pub length_between : ℕ → ℕ → Text → Bool
length_between least most text = leb least (length text) && leb (length text) most

-- The CHECK of `reservation_id`.
unfoldable pub is_reservation_id : Text → Bool
is_reservation_id id =
    length id == 35
    && starts_with id (codes "capacity_")
    && all is_leading (take 1 (drop 9 id))
    && all is_crockford (drop 9 id)

-- The CHECKs of the columns that a reservation repeats from its lease, and of its key.
unfoldable pub lease_columns_ok : Text → Text → Text → Text → Bool
lease_columns_ok profile_uid caller host tenant =
    length profile_uid == 34
    && starts_with profile_uid (codes "profile_")
    && starts_with caller (codes "caller:")
    && starts_with host (codes "host:")
    && length_between 1 128 tenant

-- The CHECKs of the moment of the reservation.
unfoldable pub stamp_ok : StoredTimestamp → Bool
unfolding last_is
stamp_ok stamp = last_is stamp.wire b'Z' && leb stamp.nanos 999999999

-- The CHECKs of the texts of a row and of its moment.
unfoldable pub texts_ok : ReservationRow → Bool
texts_ok new =
    is_reservation_id new.reservation_id
    && lease_columns_ok new.profile_uid new.authenticated_caller new.host_identity new.tenant_id
    && length_between 1 256 new.key
    && stamp_ok new.reserved_at

unfoldable pub admits_row : List ReservationRow → ReservationRow → Bool
unfolding any_row texts_ok
admits_row rows new =
    not (any_row (has_id new.reservation_id) rows)
    && texts_ok new
    && leb 1 new.limit
    && leb new.limit 4294967295
    && leb 1 new.slot
    && column_of new.dimension new == new.key
    && new.state == ReservationState.held
    && is_unset new.released_at
    && leb new.slot new.limit
    && not (any_row (λ row. row.lease_id == new.lease_id && row.dimension == new.dimension) rows)
    && not (any_row (takes_slot new.dimension new.key new.slot) rows)
