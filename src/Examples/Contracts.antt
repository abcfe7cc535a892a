-- ===== src/Examples/Contracts.antt =====
-- The contract theorems at concrete inputs: src/automation/contracts.
use aictx.Base.{◌≡◌, refl, inl, [], ok, some, false, codes, arith, Text-discrete, ℕ_discrete}
use aictx.Contracts.Types.{Provider-discrete, AgentRole-discrete, ProfileRef-discrete}
use aictx.Contracts.Temporal.{seconds_until}
use aictx.Contracts.Authorization
use aictx.Contracts.Request.{
  validate_authorization, validate_authorization_binding, validate_structure, require_signed_fields,
}
use aictx.Contracts.Admission.{Covered, validate_authorization_iff}
use aictx.Contracts.Integer.{Numeral, decimal, deserialize_bounded_u64}
use aictx.Contracts.IntegerLaws.{Denotes}
use aictx.Contracts.IntegerWritten.{Sign, Exponent, Written}
use aictx.Contracts.IntegerText.{deserialize_bounded_u64_iff}
use aictx.Examples.Crates.{ten_o_clock}
use aictx.Contracts.Sha256.{encoded, from_str}
use aictx.Contracts.Sha256Laws.{IsDigest, from_str_iff}
use aictx.Examples.Data.{request, order_digest}

validates : validate_authorization request ten_o_clock ≡ ok tt
unfolding validate_authorization validate_authorization_binding validate_structure
    require_signed_fields Authorization.validate Authorization.validate_structure seconds_until
    Text-discrete Provider-discrete AgentRole-discrete ProfileRef-discrete ℕ_discrete
validates = refl

validate_authorization_iff_example : Covered request ten_o_clock
validate_authorization_iff_example = (validate_authorization_iff request ten_o_clock).0 validates

thirty_two_bytes : IsDigest order_digest
unfolding ℕ_discrete
thirty_two_bytes = (refl, refl)

from_str_iff_example : from_str (encoded order_digest) ≡ ok order_digest
from_str_iff_example = (from_str_iff (encoded order_digest) order_digest).1 (refl, thirty_two_bytes)

-- Fifteen tens, written with a point.
abbrev fifteen_tens : Numeral
fifteen_tens = record { whole = codes "1"; fraction = codes "500"; exponent = (false, 2) }

written : Written (codes "1.500e2") fifteen_tens
unfolding decimal
written = record {
  point = codes ".500";
  exponent = codes "e2";
  spelled = refl;
  present = refl;
  whole_digits = refl;
  fraction_digits = refl;
  pointed = inl refl;
  scaled = Exponent.marked b'e' b'2' [] (inl refl) Sign.bare refl (omega arith);
}

denotes : Denotes fifteen_tens 150
unfolding Denotes decimal
denotes = refl

deserialize_bounded_u64_iff_example : deserialize_bounded_u64 1 300 (codes "1.500e2") ≡ some 150
deserialize_bounded_u64_iff_example =
    (deserialize_bounded_u64_iff 1 300 (codes "1.500e2") fifteen_tens 150 (omega arith) written
        (omega arith)).1
      (denotes, omega arith, omega arith)
