-- ===== src/Store/Columns.antt =====
-- A new reservation meets the CHECKs of its columns: the schema of src/automation/store.
use aictx.Base.{
  ℕ, ◌≡◌, refl, sym, subst, and_true, ==_iff, starts_with, Bool, true, ◌&&◌, some, [], ◌∷◌, ◌++◌,
  Text, codes, length, leb, ok, arith, nat_eq, Option-cases, inl, inr, strip_prefix,
}
use aictx.Contracts.Types.{Provider}
use aictx.Contracts.Temporal.{UtcTimestamp, TimeCrate, last_is}
use aictx.Policy.Digest.{provider_label}
use aictx.Model.ProfileUid.{encode_crockford, valid_digits, parse_uid}
use aictx.Model.DerivedUid.{IsBytes, encode_crockford-parse_uid}
use aictx.Store.Tables.{DimensionLabel, StoredTimestamp, from_utc, LeaseRow}
use aictx.Store.Ids.{Randomness, capacity_prefix}
use aictx.Store.Schema.{length_between, is_reservation_id, lease_columns_ok, stamp_ok}

-- `getrandom::fill` fills sixteen bytes, when it does not fail.
abbrev pub FillsSixteen : Randomness → Type 0
FillsSixteen fill =
    (drawn : ℕ) (bytes : Text) → fill drawn ≡ some bytes → IsBytes bytes × (length bytes ≡ 16)

-- A lease row meets its own CHECKs, and its caller and host have at most 256 bytes.
unfoldable pub lease_ok : LeaseRow → Bool
unfolding lease_columns_ok
lease_ok lease =
    lease_columns_ok lease.profile_uid lease.authenticated_caller lease.host_identity
      lease.tenant_id
    && leb (length lease.authenticated_caller) 256
    && leb (length lease.host_identity) 256

valid_digits-is_reservation_id :
    (digits : Text)
    → valid_digits digits ≡ true
    → is_reservation_id (capacity_prefix ++ digits) ≡ true
unfolding valid_digits is_reservation_id
valid_digits-is_reservation_id [] h = absurd (ground arith)
valid_digits-is_reservation_id (d ∷ ds) h = ground arith

accepted :
    (digits : Text)
    → parse_uid (capacity_prefix ++ digits) capacity_prefix ≡ ok (capacity_prefix ++ digits)
    → valid_digits digits ≡ true
unfolding parse_uid strip_prefix
accepted digits h = ground arith

pub encode_crockford-is_reservation_id :
    (bytes : Text)
    → IsBytes bytes × (length bytes ≡ 16)
    → is_reservation_id (capacity_prefix ++ encode_crockford bytes) ≡ true
encode_crockford-is_reservation_id bytes (all_bytes, sixteen) =
    valid_digits-is_reservation_id (encode_crockford bytes) (
      accepted (encode_crockford bytes)
        (encode_crockford-parse_uid capacity_prefix bytes all_bytes sixteen))

unfoldable pub lease_column : DimensionLabel → LeaseRow → Text
lease_column DimensionLabel.provider lease = provider_label lease.provider
lease_column DimensionLabel.profile lease = lease.profile_uid
lease_column DimensionLabel.caller lease = lease.authenticated_caller
lease_column DimensionLabel.host lease = lease.host_identity

provider_label-length : (p : Provider) → length_between 1 256 (provider_label p) ≡ true
unfolding provider_label
provider_label-length Provider.claude = refl
provider_label-length Provider.codex = refl

starts_with-length :
    (text : Text) (c : ℕ) (cs : Text)
    → starts_with text (c ∷ cs) ≡ true
    → leb (length text) 256 ≡ true
    → length_between 1 256 text ≡ true
starts_with-length [] c cs h small = absurd (ground arith)
starts_with-length (d ∷ ds) c cs h small = ground arith

pub lease_ok-columns :
    (lease : LeaseRow)
    → lease_ok lease ≡ true
    → (lease_columns_ok lease.profile_uid lease.authenticated_caller lease.host_identity
          lease.tenant_id
        ≡ true)
      × (leb (length lease.authenticated_caller) 256 ≡ true)
      × (leb (length lease.host_identity) 256 ≡ true)
unfolding lease_ok
lease_ok-columns lease h =
    let (front, host_short) = and_true h in
    let (columns, caller_short) = and_true front in (columns, caller_short, host_short)

columns-prefixes :
    (lease : LeaseRow)
    → lease_columns_ok lease.profile_uid lease.authenticated_caller lease.host_identity
        lease.tenant_id
      ≡ true
    → (length lease.profile_uid ≡ 34)
      × (starts_with lease.authenticated_caller (codes "caller:") ≡ true)
      × (starts_with lease.host_identity (codes "host:") ≡ true)
unfolding lease_columns_ok
columns-prefixes lease h =
    let (to_host, tenant) = and_true h in
    let (to_caller, host) = and_true to_host in
    let (to_uid, caller) = and_true to_caller in
    let (long, prefix) = and_true to_uid in
    ((==_iff (length lease.profile_uid) 34).0 long, caller, host)

pub lease_column-length :
    (label : DimensionLabel) (lease : LeaseRow)
    → lease_ok lease ≡ true
    → length_between 1 256 (lease_column label lease) ≡ true
unfolding lease_column
lease_column-length DimensionLabel.provider lease h = provider_label-length lease.provider
lease_column-length DimensionLabel.profile lease h =
    let (long, caller, host) = columns-prefixes lease (lease_ok-columns lease h).0 in
    subst (λ n. (leb 1 n && leb n 256) ≡ true) (sym long) refl
lease_column-length DimensionLabel.caller lease h =
    let (columns, caller_short, host_short) = lease_ok-columns lease h in
    let (long, caller, host) = columns-prefixes lease columns in
    starts_with-length lease.authenticated_caller 99 (codes "aller:") caller caller_short
lease_column-length DimensionLabel.host lease h =
    let (columns, caller_short, host_short) = lease_ok-columns lease h in
    let (long, caller, host) = columns-prefixes lease columns in
    starts_with-length lease.host_identity 104 (codes "ost:") host host_short

pub from_utc-stamp_ok :
    (crate : TimeCrate) (now : UtcTimestamp) (stamp : StoredTimestamp)
    → last_is now.wire b'Z' ≡ true
    → from_utc crate now ≡ ok stamp
    → stamp_ok stamp ≡ true
unfolding from_utc stamp_ok
from_utc-stamp_ok crate now stamp zulu h = elim (Option-cases (crate.parse now.wire)) [
  | inl none_read ↦ absurd (ground arith)
  | inr (parsed, k) ↦ ground arith
]
