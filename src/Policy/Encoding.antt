-- ===== src/Policy/Encoding.antt =====
-- The encoding under the policy digest is unambiguous: the field encoder of src/automation/policy.rs.
use Prim.Native.String.{String}
use mathlib.Core.List.{append_assoc}
use aictx.Base.{
  ℕ, ◌+◌, ◌*◌, ◌/◌, ◌%◌, ◌^◌, ◌≤◌, ◌≡◌, ◌≢◌, true, refl, sym, ◌∙◌, List, [], ◌∷◌, ◌++◌, Text, codes,
  length, arith, leb,
}
use aictx.Contracts.Temporal.{u64_max}
use aictx.Policy.Digest.{to_be_bytes, length_prefix, field, encode_fields}

-- One byte at a time.
byte_0 : (n : ℕ) → n ≡ n / 2 ^ 8 * 256 + n % 256
byte_0 n = omega arith

byte_1 : (n : ℕ) → n / 2 ^ 8 ≡ n / 2 ^ 16 * 256 + n / 2 ^ 8 % 256
byte_1 n = omega arith

byte_2 : (n : ℕ) → n / 2 ^ 16 ≡ n / 2 ^ 24 * 256 + n / 2 ^ 16 % 256
byte_2 n = omega arith

byte_3 : (n : ℕ) → n / 2 ^ 24 ≡ n / 2 ^ 32 * 256 + n / 2 ^ 24 % 256
byte_3 n = omega arith

byte_4 : (n : ℕ) → n / 2 ^ 32 ≡ n / 2 ^ 40 * 256 + n / 2 ^ 32 % 256
byte_4 n = omega arith

byte_5 : (n : ℕ) → n / 2 ^ 40 ≡ n / 2 ^ 48 * 256 + n / 2 ^ 40 % 256
byte_5 n = omega arith

byte_6 : (n : ℕ) → n / 2 ^ 48 ≡ n / 2 ^ 56 * 256 + n / 2 ^ 48 % 256
byte_6 n = omega arith

byte_7 : (n : ℕ) → n ≤ u64_max → n / 2 ^ 56 ≡ n / 2 ^ 56 % 256
byte_7 n h = omega arith

join : {a b x y r s : ℕ} → a ≡ x * 256 + r → b ≡ y * 256 + s → x ≡ y → r ≡ s → a ≡ b
join h k e f = omega arith

-- Eight bytes determine a 64-bit number.
pub to_be_bytes_injective :
    (n m : ℕ) → n ≤ u64_max → m ≤ u64_max → to_be_bytes n ≡ to_be_bytes m → n ≡ m
to_be_bytes_injective n m h k e =
    let e7 : n / 2 ^ 56 ≡ m / 2 ^ 56 = byte_7 n h ∙ (cc) ∙ sym (byte_7 m k) in
    let e6 = join (byte_6 n) (byte_6 m) e7 cc in
    let e5 = join (byte_5 n) (byte_5 m) e6 cc in
    let e4 = join (byte_4 n) (byte_4 m) e5 cc in
    let e3 = join (byte_3 n) (byte_3 m) e4 cc in
    let e2 = join (byte_2 n) (byte_2 m) e3 cc in
    let e1 = join (byte_1 n) (byte_1 m) e2 cc in join (byte_0 n) (byte_0 m) e1 cc

head_eq {ℓ} : {A : Type ℓ} {x y : A} {xs ys : List A} → x ∷ xs ≡ y ∷ ys → x ≡ y
head_eq e = cc

tail_eq {ℓ} : {A : Type ℓ} {x y : A} {xs ys : List A} → x ∷ xs ≡ y ∷ ys → xs ≡ ys
tail_eq e = cc

-- Two lists with a prefix of the same length each.
pub append_injective {ℓ} :
    {A : Type ℓ} (xs ys : List A) {us vs : List A}
    → length xs ≡ length ys
    → xs ++ us ≡ ys ++ vs
    → (xs ≡ ys) × (us ≡ vs)
append_injective [] [] h e = (refl, e)
append_injective [] (y ∷ ys) h e = absurd (omega arith)
append_injective (x ∷ xs) [] h e = absurd (omega arith)
append_injective (x ∷ xs) (y ∷ ys) h e =
    let (p, q) = append_injective xs ys (omega arith) (tail_eq e) in (rw (head_eq e, p) refl, q)

-- A text whose length the prefix can tell.
abbrev pub Short : Text → Type 0
Short t = length t ≤ u64_max

Short-test : (a : Text) → Short a → leb (length a) u64_max ≡ true
Short-test a h = ground arith

Short-prefix : (a : Text) → Short a → length_prefix a ≡ to_be_bytes (length a)
Short-prefix a h = rw (Short-test a h) refl

-- One length-prefixed text, and what follows it.
prefixed_injective :
    (a b : Text) {u v : Text}
    → Short a
    → Short b
    → length_prefix a ++ (a ++ u) ≡ length_prefix b ++ (b ++ v)
    → (a ≡ b) × (u ≡ v)
prefixed_injective a b h k e =
    let (p, q) = append_injective (length_prefix a) (length_prefix b) refl e in
    let r =
      to_be_bytes_injective (length a) (length b) h k
        (sym (Short-prefix a h) ∙ p ∙ Short-prefix b k) in
    append_injective a b r q

spread : (n a u : Text) → field n a ++ u ≡ length_prefix n ++ (n ++ (length_prefix a ++ (a ++ u)))
unfolding field
spread n a u =
    append_assoc (length_prefix n ++ n ++ length_prefix a) a u
    ∙ append_assoc (length_prefix n ++ n) (length_prefix a) (a ++ u)
    ∙ append_assoc (length_prefix n) n (length_prefix a ++ (a ++ u))

field_not_nil : (n a u : Text) → field n a ++ u ≢ []
unfolding field
field_not_nil n a u e = cc

-- A field, and what follows it.
field_injective :
    (n m a b : Text) {u v : Text}
    → Short n
    → Short m
    → Short a
    → Short b
    → field n a ++ u ≡ field m b ++ v
    → (n ≡ m) × (a ≡ b) × (u ≡ v)
unfolding field
field_injective n m a b {u} {v} hn hm ha hb e =
    let (p, q) = prefixed_injective n m hn hm (sym (spread n a u) ∙ e ∙ spread m b v) in
    let (r, s) = prefixed_injective a b ha hb q in (p, r, s)

-- The texts of a list of fields.
abbrev pub texts : List (String × Text) → List (Text × Text)
texts [] = []
texts ((name, value) ∷ rest) = (codes name, value) ∷ texts rest

abbrev pub AllShort : List (String × Text) → Type 0
AllShort [] = Unit
AllShort ((name, value) ∷ rest) = Short (codes name) × Short value × AllShort rest

ap2_cons :
    {n m a b : Text} {us vs : List (Text × Text)}
    → n ≡ m
    → a ≡ b
    → us ≡ vs
    → (n, a) ∷ us ≡ (m, b) ∷ vs
ap2_cons p q r = rw (p, q, r) refl

-- Lists of fields whose lengths fit 64 bits and which have the same encoding have the same names and
-- values in the same order: no field can be moved into its neighbour.
pub encode_fields_injective :
    (xs ys : List (String × Text))
    → AllShort xs
    → AllShort ys
    → encode_fields xs ≡ encode_fields ys
    → texts xs ≡ texts ys
unfolding encode_fields
encode_fields_injective [] [] h k e = refl
encode_fields_injective [] ((n, a) ∷ ys) h k e = absurd (field_not_nil (codes n) a _ (sym e))
encode_fields_injective ((n, a) ∷ xs) [] h k e = absurd (field_not_nil (codes n) a _ e)
encode_fields_injective ((n, a) ∷ xs) ((m, b) ∷ ys) (hn, ha, h) (km, kb, k) e =
    let (p, q, r) = field_injective (codes n) (codes m) a b hn km ha kb e in
    ap2_cons p q (encode_fields_injective xs ys h k r)
