-- ===== src/Contracts/IntegerText.antt =====
-- Which JSON numbers are decoded, by their text: src/automation/contracts/integer.rs.
use aictx.Base.{ℕ, ◌^◌, ◌≤◌, ◌<◌, ◌≡◌, ◌↔◌, some, ◌++◌, Text, length}
use aictx.Contracts.Integer.{Numeral, deserialize_bounded_u64}
use aictx.Contracts.IntegerLaws.{Denotes}
use aictx.Contracts.IntegerWritten.{Written, read_numeral-Written}
use aictx.Contracts.IntegerExact.{decoded_iff}

-- For a text that is a whole part of at least one digit, perhaps a point and a fraction, and perhaps
-- a mark with a signed exponent below 2 ^ 127, with fewer than 2 ^ 64 digits before the exponent and
-- no sign of its own: with a maximum of 64 bits, it is decoded to a number exactly when it denotes
-- that number and the number is between the two bounds.
pub deserialize_bounded_u64_iff :
    (minimum maximum : ℕ) (value : Text) (p : Numeral) (n : ℕ)
    → maximum < 2 ^ 64
    → Written value p
    → length (p.whole ++ p.fraction) < 2 ^ 64
    → (deserialize_bounded_u64 minimum maximum value ≡ some n)
      ↔ (Denotes p n × (minimum ≤ n) × (n ≤ maximum))
deserialize_bounded_u64_iff minimum maximum value p n small written fits =
    decoded_iff minimum maximum value p n small (read_numeral-Written value p written) fits
