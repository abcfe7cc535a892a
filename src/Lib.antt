-- ===== src/Lib.antt =====
-- Verification library of the lease automation: the pure core that decides who may hold an
-- identity lease, for how long, and under which policy.
--
-- The program. A client presents a signed request. `IdentityLeaseRequest::validate_authorization`
-- (src/automation/contracts/request.rs) checks it against its work-order authorization;
-- `evaluate_policy` (src/automation/policy.rs) intersects authorization, profile and controller
-- into an effective policy; `LeaseBinding::from_request` (src/automation/lease/replay.rs) binds a
-- lease, which `Lease` (src/automation/lease.rs) then activates, renews, fences and ends. Domain
-- errors are mapped to the public errors of src/automation/contracts/error_contract.rs. A lease is
-- persisted as a snapshot and restored from one (src/automation/lease/snapshot.rs). Interactive
-- commands choose a profile by directory and context (src/resolver.rs).
--
-- The files.
--   Base: the shared names: Boolean tests and equality, `Result` with `?` as the bind of a `do`
--     block, texts as lists of bytes or of characters.
--   Contracts: src/automation/contracts. Types holds the closed vocabularies of types.rs, Temporal
--     the durations, generations and timestamps of temporal.rs, Integer integer.rs, Sha256 the text
--     form of digests, Authorization and Request the two halves of request.rs, ErrorContract
--     error_contract.rs, Response response.rs, Identifiers the parsers of types.rs and
--     references.rs, Readiness and ReadinessReport readiness.rs.
--     Admission, TimestampShape, IntegerLaws, IntegerReads, IntegerScales, IntegerExact,
--     IntegerWritten, IntegerText, Sha256Laws and ReadyReports hold their theorems.
--   Policy: src/automation/policy.rs and src/automation/policy/isolation.rs. Types holds the inputs
--     and the result, Digest the hashed encoding, Evaluate the decision in the stages of the
--     source, FromConfig the policy of a profile in the configuration.
--     Admission, Decision and Narrowing hold the theorems on the decision, Encoding and Preimage
--     those on the encoding, Extraction that on FromConfig.
--   Model: src/model.rs and src/model. Name, FilePath, ProfileUid, Automation, Wif, Profile and
--     Config hold the definitions: ProfileUid is profile_uid.rs, Automation automation.rs, Wif
--     wif.rs, Profile and Config the types of model.rs with their checks in validation.rs.
--     NameLaws, Crockford, CanonicalUid, DerivedUid, ConfigLaws, SoundConfig and PathLaws hold
--     the theorems.
--   Shell: src/shell.rs. Mask, Quote and Init hold the definitions; Words has the rules by which
--     the shells read a quoted word; MaskLaws, Posix, Fish, Powershell and Commands hold the
--     theorems.
--   Store: src/automation/store. Tables holds the rows that the capacity queries use, Ids ids.rs,
--     Schema the database's conditions on a reservation (schema_v1.sql, schema_v3.sql); Slots,
--     Graph, Capacity and Release are capacity.rs. A table is the list of its rows, a query a
--     function on them, and a transaction that fails is rolled back. Columns, FreeSlot, Plan,
--     Reserve, ClaimRows, Claimed, Released, Resolved and RoundTrip hold the theorems.
--   Lease: src/automation/lease.rs and src/automation/lease. Error, Clock, Replay and State are the
--     files and types of the same names; Checks holds the guards; Operations, Renewal and
--     Activation the methods. A method that takes `&mut self` returns the lease that it leaves and
--     its result, since an operation may move the lease and fail. History is a sequence of calls.
--     Snapshot and Restore are the durable form. Move and Moves describe every call as at most two
--     moves; Authority, Invariant, SignedLifetime, SignedHistory, Lifecycle, Control, Fencing, Launch, Deadlines, Recovery,
--     Process, WireTime, ReplayLaws, PublicErrors and Issue hold the theorems.
--   Resolver: src/resolver.rs. Levenshtein and Context hold the definitions, EditScript,
--     Deepest, Precedence, Profiles and Suggestion the theorems. A directory is its list of components;
--     canonicalisation by the file system is an argument.
--   Examples: concrete crates for one day, requests, leases and directories, at which the theorems
--     are applied.
--
-- Numbers. Seconds, nanoseconds and generations are natural numbers; the additions that the source
-- checks (`checked_add` on u128, `i64::try_from`, the largest generation) are written out. An
-- instant is its number of nanoseconds since the first one that the `time` crate represents.
-- The loops run over lists, but for the sixteen attempts at an identifier (`COLLISION_RETRIES`).
--
-- Parameters. The record `Crates` holds what the program takes from other crates: parsing and the
-- civil fields of instants (`time`), SHA-256 (`sha2`), and the canonical JSON of a request
-- (`serde_json`). Of them, the lease's
-- invariant assumes that two timestamps' texts read as their instants. The model of the configuration takes
-- SHA-256 and the encoding of a workload context as arguments, and the theorem on derived UIDs
-- assumes that a digest has 32 bytes. The operating system's random bytes are an argument of a claim,
-- and the theorem on granted claims assumes sixteen bytes of each call that does not fail. Paths are those of Unix, as `std::path` reads them.
--
-- Not modelled: serialisation and canonical JSON; of the store, everything but its capacity
-- reservations, and errors of the database engine itself; attestation, the signing authority,
-- configuration files and their migration, the command line, the runner and the user interfaces.
pub mod Base
pub mod Contracts
pub mod Policy
pub mod Lease
pub mod Resolver
pub mod Examples
pub mod Shell
pub mod Model
pub mod Store
