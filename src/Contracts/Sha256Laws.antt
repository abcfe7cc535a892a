-- ===== src/Contracts/Sha256Laws.antt =====
-- Digests as text: `Sha256Digest` in src/automation/contracts/types.rs.
use aictx.Base.{
  ℕ, ◌+◌, ◌-◌, ◌*◌, ◌/◌, ◌%◌, ◌<◌, ◌≡◌, refl, subst, ◌↔◌, >>=-eq-ok, true, Option, none, some, [],
  ◌∷◌, ◌++◌, Text, codes, inl, inr, arith, Result, ok, ok_or, Bool-cases, refuse_if, not, ◌||◌,
  ℕ_discrete, nat_eq, ◌==◌, length, all, leb, drop, starts_with,
}
use aictx.Contracts.Types.{Sha256Digest, ContractValidationError}
use aictx.Contracts.Sha256.{
  hex_digit, encoded_bytes, encoded, decode_hex, is_lower_hex, decode_pairs, from_str,
}

decode_hex-hex_digit : (v : ℕ) → v < 16 → decode_hex (hex_digit v) ≡ some v
unfolding decode_hex hex_digit
decode_hex-hex_digit v h = ground arith

is_lower_hex-hex_digit : (v : ℕ) → v < 16 → is_lower_hex (hex_digit v) ≡ true
unfolding is_lower_hex hex_digit
is_lower_hex-hex_digit v h = ground arith

hex_digit-decode_hex : (c : ℕ) {v : ℕ} → decode_hex c ≡ some v → (v < 16) × (hex_digit v ≡ c)
unfolding decode_hex hex_digit
hex_digit-decode_hex c h = (ground arith, ground arith)

-- A digest is 32 bytes.
abbrev pub IsDigest : Sha256Digest → Type 0
IsDigest d = (length d ≡ 32) × (all (λ b. leb b 255) d ≡ true)

length-encoded_bytes : (d : Sha256Digest) → length (encoded_bytes d) ≡ 2 * length d
unfolding encoded_bytes
length-encoded_bytes [] = omega arith
length-encoded_bytes (b ∷ d) = omega (arith, length-encoded_bytes d)

all-encoded_bytes :
    (d : Sha256Digest) → all (λ b. leb b 255) d ≡ true → all is_lower_hex (encoded_bytes d) ≡ true
unfolding encoded_bytes
all-encoded_bytes [] h = refl
all-encoded_bytes (b ∷ d) h =
    let k = all-encoded_bytes d (ground arith) in
    let q : b < 256 = ground arith in
    let x = is_lower_hex-hex_digit (b / 16) (omega arith) in
    let y = is_lower_hex-hex_digit (b % 16) (omega arith) in ground arith

decode_pairs-encoded_bytes :
    (d : Sha256Digest) → all (λ b. leb b 255) d ≡ true → decode_pairs (encoded_bytes d) ≡ ok d
unfolding encoded_bytes decode_pairs
decode_pairs-encoded_bytes [] h = refl
decode_pairs-encoded_bytes (b ∷ d) h =
    let k = decode_pairs-encoded_bytes d (ground arith) in
    let q : b < 256 = ground arith in
    let x = decode_hex-hex_digit (b / 16) (omega arith) in
    let y = decode_hex-hex_digit (b % 16) (omega arith) in
    let e : (b / 16) * 16 + b % 16 ≡ b = omega arith in ground arith

ok_or-eq-ok : {E A : Type 0} (o : Option A) (e : E) {a : A} → ok_or o e ≡ ok a → o ≡ some a
ok_or-eq-ok none e h = cc
ok_or-eq-ok (some x) e h = cc

ok_injective : {E A : Type 0} {a b : A} → ◌≡◌ {A = Result E A} (ok a) (ok b) → a ≡ b
ok_injective h = cc

pair_is_byte : (a b : ℕ) → a < 16 → b < 16 → leb (a * 16 + b) 255 ≡ true
pair_is_byte a b h k = ground arith

encoded_bytes-decode_pairs :
    (s : Text) (n : ℕ) {d : Sha256Digest}
    → length s ≡ 2 * n
    → decode_pairs s ≡ ok d
    → (encoded_bytes d ≡ s) × (length d ≡ n) × (all (λ b. leb b 255) d ≡ true)
unfolding encoded_bytes decode_pairs
encoded_bytes-decode_pairs [] n l h = (ground arith, ground arith, ground arith)
encoded_bytes-decode_pairs (x ∷ []) n l h = absurd (omega arith)
encoded_bytes-decode_pairs (x ∷ y ∷ s) n {d} l h =
    let (a, ha, h1) =
      >>=-eq-ok (ok_or (decode_hex x) ContractValidationError.invalid_sha256_digest) _ h in
    let (b, hb, h2) =
      >>=-eq-ok (ok_or (decode_hex y) ContractValidationError.invalid_sha256_digest) _ h1 in
    let (t, ht, h3) = >>=-eq-ok (decode_pairs s) _ h2 in
    let (p, q) = hex_digit-decode_hex x (ok_or-eq-ok (decode_hex x) _ ha) in
    let (u, v) = hex_digit-decode_hex y (ok_or-eq-ok (decode_hex y) _ hb) in
    let (e, k, r) = encoded_bytes-decode_pairs s (n - 1) (omega arith) ht in
    let head : (a * 16 + b) / 16 ≡ a = omega arith in
    let tail : (a * 16 + b) % 16 ≡ b = omega arith in
    let same : (a * 16 + b) ∷ t ≡ d = ok_injective h3 in
    subst (λ d. (encoded_bytes d ≡ x ∷ y ∷ s) × (length d ≡ n) × (all (λ b. leb b 255) d ≡ true))
      same (cc, omega arith, rw (pair_is_byte a b p u) r)

drop_prefix : (p s : Text) → starts_with s p ≡ true → p ++ drop (length p) s ≡ s
drop_prefix [] s h = refl
drop_prefix (c ∷ p) [] h = absurd (ground arith)
drop_prefix (c ∷ p) (x ∷ s) h = let e = drop_prefix p s (ground arith) in ground arith

-- A digest of 32 bytes is read back from its text.
from_str-encoded : (d : Sha256Digest) → IsDigest d → from_str (encoded d) ≡ ok d
unfolding from_str encoded ℕ_discrete
from_str-encoded d (l, b) =
    let k : length (encoded_bytes d) ≡ 64 = omega (arith, length-encoded_bytes d) in
    rw (k, all-encoded_bytes d b) (decode_pairs-encoded_bytes d b)

length_read :
    (s : Text)
    → refuse_if
        (not (length (drop 7 s) == 64) || not (all is_lower_hex (drop 7 s)))
        ContractValidationError.invalid_sha256_digest
      ≡ ok tt
    → length (drop 7 s) ≡ 64
length_read s q = ground arith

prefix_read :
    (s : Text)
    → refuse_if
        (not (starts_with s (codes "sha256:")))
        ContractValidationError.invalid_sha256_digest
      ≡ ok tt
    → starts_with s (codes "sha256:") ≡ true
prefix_read s p = elim (Bool-cases (starts_with s (codes "sha256:"))) [ inl e ↦ e | inr e ↦ cc ]

-- A text that is read as a digest is the text of that digest, which has 32 bytes.
encoded-from_str : (s : Text) {d : Sha256Digest} → from_str s ≡ ok d → (encoded d ≡ s) × IsDigest d
unfolding from_str encoded
encoded-from_str s h =
    let (x, p, h1) =
      >>=-eq-ok
        (refuse_if (not (starts_with s (codes "sha256:")))
          ContractValidationError.invalid_sha256_digest)
        _ h in
    let (y, q, h2) =
      >>=-eq-ok
        (refuse_if (not (length (drop 7 s) == 64) || not (all is_lower_hex (drop 7 s)))
          ContractValidationError.invalid_sha256_digest)
        _ h1 in
    let (e, k, r) = encoded_bytes-decode_pairs (drop 7 s) 32 (length_read s q) h2 in
    (rw e (drop_prefix (codes "sha256:") s (prefix_read s p)), (k, r))

-- Reading and printing are inverse: a text is read as a digest exactly when it is the text of that
-- digest and the digest has 32 bytes. So every digest has one text, with lower-case digits only.
pub from_str_iff :
    (s : Text) (d : Sha256Digest) → (from_str s ≡ ok d) ↔ ((encoded d ≡ s) × IsDigest d)
from_str_iff s d =
    (encoded-from_str s, λ (e, b). subst (λ t. from_str t ≡ ok d) e (from_str-encoded d b))
