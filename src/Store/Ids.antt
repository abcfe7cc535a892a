-- ===== src/Store/Ids.antt =====
-- Row identifiers: src/automation/store/ids.rs. The operating system's randomness is an argument:
-- `fill n` is what the n-th call of `getrandom::fill` writes, or none when it fails.
use aictx.Base.{
  ℕ, zero, suc, Bool, Option, ◌++◌, Text, codes, Result, ok, err, ok_or, ◌>>=◌, if◌then◌else◌,
}
use aictx.Model.ProfileUid.{encode_crockford}
use aictx.Store.Tables.{StoreError}

abbrev pub capacity_prefix : Text
capacity_prefix = codes "capacity_"

abbrev pub collision_retries : ℕ
collision_retries = 16

abbrev pub Randomness : Type 0
Randomness = ℕ → Option Text

-- `random_id` at the `drawn`-th call.
unfoldable pub random_id : Randomness → ℕ → Text → Result StoreError Text
random_id fill drawn prefix = do
  bytes ← ok_or (fill drawn) StoreError.entropy_unavailable
  ok (prefix ++ encode_crockford bytes)

-- The loop of `allocate_id`, with its remaining retries and the number of calls so far: the new
-- identifier and that number afterwards.
unfoldable pub allocate : Randomness → Text → (Text → Bool) → ℕ → ℕ → Result StoreError (Text × ℕ)
unfolding random_id
allocate fill prefix exists zero drawn = err StoreError.identifier_collision
allocate fill prefix exists (suc retries) drawn = do
  candidate ← random_id fill drawn prefix
  let again = allocate fill prefix exists retries (suc drawn)
  if exists candidate then again else ok (candidate, suc drawn)

unfoldable pub allocate_id : Randomness → Text → (Text → Bool) → ℕ → Result StoreError (Text × ℕ)
unfolding allocate
allocate_id fill prefix exists drawn = allocate fill prefix exists collision_retries drawn
