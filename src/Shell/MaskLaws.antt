-- ===== src/Shell/MaskLaws.antt =====
-- What a masked identity gives away: `mask_identity` of src/shell.rs.
use mathlib.Core.List.{reverse, reverse-append, reverse-reverse}
use aictx.Base.{
  ℕ, ◌≤◌, ◌≡◌, refl, ap, ◌∙◌, sym, [], ◌∷◌, ◌++◌, Text, codes, length, length-append, Free,
  split_once-Free, split_once-append, take, arith, nat_eq,
}
use aictx.Shell.Mask.{suffix, mask_identity}

-- Two identities that look alike on the screen.
pub data Alike : Text → Text → Type 0 where
  address :
      (c : ℕ) (s t domain : Text)
      → Free b'@' (c ∷ s)
      → Free b'@' (c ∷ t)
      → Alike ((c ∷ s) ++ b'@' ∷ domain) ((c ∷ t) ++ b'@' ∷ domain)
  opaque :
      (a b : ℕ) (s t tail : Text)
      → Free b'@' ((a ∷ s) ++ tail)
      → Free b'@' ((b ∷ t) ++ tail)
      → length tail ≡ 4
      → Alike ((a ∷ s) ++ tail) ((b ∷ t) ++ tail)
  short : (s t : Text) → Free b'@' s → Free b'@' t → length s ≤ 4 → length t ≤ 4 → Alike s t

mask_address_of :
    (c : ℕ) (s domain : Text)
    → Free b'@' (c ∷ s)
    → mask_identity ((c ∷ s) ++ b'@' ∷ domain) ≡ c ∷ codes "***@" ++ domain
unfolding mask_identity
mask_address_of c s domain free = ground (arith, split_once-append b'@' (c ∷ s) domain free)

take-length-append : (xs ys : Text) → take (length xs) (xs ++ ys) ≡ xs
take-length-append [] ys = refl
take-length-append (x ∷ xs) ys = ap (◌∷◌ x) (take-length-append xs ys)

length-reverse : (xs : Text) → length (reverse xs) ≡ length xs
length-reverse [] = refl
length-reverse (x ∷ xs) = omega (
  arith,
  ap length (reverse-append (x ∷ []) xs),
  length-append (reverse xs) (x ∷ []),
  length-reverse xs,
)

suffix-append : (s tail : Text) → length tail ≡ 4 → suffix (s ++ tail) ≡ tail
unfolding suffix
suffix-append s tail four = rw (reverse-append s tail) (
    rw (← (length-reverse tail ∙ four))
      (rw (take-length-append (reverse tail) (reverse s)) (reverse-reverse tail)))

mask_opaque :
    (a : ℕ) (s tail : Text)
    → Free b'@' ((a ∷ s) ++ tail)
    → length tail ≡ 4
    → mask_identity ((a ∷ s) ++ tail) ≡ codes "***" ++ tail
unfolding mask_identity
mask_opaque a s tail free four = ground (
  arith,
  split_once-Free b'@' ((a ∷ s) ++ tail) free,
  length-append s tail,
  suffix-append (a ∷ s) tail four,
)

mask_short : (s : Text) → Free b'@' s → length s ≤ 4 → mask_identity s ≡ codes "****"
unfolding mask_identity
mask_short s free few = ground (arith, split_once-Free b'@' s free)

-- Identities that look alike are shown alike: an address gives away its first character and its
-- domain, a longer identity without a domain its last four characters, and a short one nothing.
pub mask_identity-Alike : {s t : Text} → Alike s t → mask_identity s ≡ mask_identity t
mask_identity-Alike (address c s t domain p q) =
    mask_address_of c s domain p ∙ sym (mask_address_of c t domain q)
mask_identity-Alike (opaque a b s t tail p q four) =
    mask_opaque a s tail p four ∙ sym (mask_opaque b t tail q four)
mask_identity-Alike (short s t p q few less) = mask_short s p few ∙ sym (mask_short t q less)
