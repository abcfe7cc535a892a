-- ===== src/Shell/Powershell.antt =====
-- The literals of PowerShell that src/shell.rs quotes.
use mathlib.Core.List.{flat_map, append_assoc, append-nil}
use aictx.Base.{
  ℕ, ◌≡◌, ◌≢◌, ◌⊎◌, refl, ap, ◌∙◌, true, false, some, [], ◌∷◌, ◌++◌, Text, codes, arith, nat_eq,
}
use aictx.Shell.Quote.{
  apostrophe, replaced, replace, replace-append, replace_cons, quote_powershell,
}
use aictx.Shell.Words.{Ends, is_single_quote, powershell_literal, powershell_word}

-- The text holds none of the quotation marks that PowerShell takes for apostrophes, other than the
-- apostrophe itself.
abbrev pub Straight : Text → Type 0
Straight [] = Unit {0}
Straight (c ∷ s) = ((c ≡ apostrophe) ⊎ (is_single_quote c ≡ false)) × Straight s

powershell_literal-Ends :
    (rest out : Text) → Ends rest → powershell_literal rest true out ≡ some (out, rest)
unfolding powershell_literal
powershell_literal-Ends [] out ends = refl
powershell_literal-Ends (c ∷ s) out ends = ground arith

powershell_literal-replaced :
    (c : ℕ) (rest out : Text)
    → (c ≡ apostrophe) ⊎ (is_single_quote c ≡ false)
    → powershell_literal (replaced apostrophe (codes "''") c ++ rest) false out
      ≡ powershell_literal rest false (out ++ c ∷ [])
unfolding powershell_literal
powershell_literal-replaced c rest out straight = ground arith

powershell_literal-replace :
    (value rest out : Text)
    → Straight value
    → powershell_literal (replace apostrophe (codes "''") value ++ rest) false out
      ≡ powershell_literal rest false (out ++ value)
unfolding replace flat_map
powershell_literal-replace [] rest out straight = rw append-nil
powershell_literal-replace (c ∷ s) rest out (now, later) =
    let escaped = replaced apostrophe (codes "''") c in
    let escaped_rest = replace apostrophe (codes "''") s in
    ap (λ (t : Text). powershell_literal t false out) (append_assoc escaped escaped_rest rest)
    ∙ powershell_literal-replaced c (escaped_rest ++ rest) out now
    ∙ powershell_literal-replace s rest (out ++ c ∷ []) later
    ∙ ap (powershell_literal rest false) (append_assoc out (c ∷ []) s)

powershell_quote :
    (rest out : Text)
    → (powershell_word (apostrophe ∷ rest) ≡ powershell_literal rest false [])
      × (powershell_literal (apostrophe ∷ rest) false out ≡ powershell_literal rest true out)
unfolding powershell_word powershell_literal
powershell_quote rest out = ground arith

pub powershell_word-quote_powershell :
    (value rest : Text)
    → Straight value
    → Ends rest
    → powershell_word (quote_powershell value ++ rest) ≡ some (value, rest)
unfolding quote_powershell
powershell_word-quote_powershell value rest straight ends =
    let body = replace apostrophe (codes "''") value in
    (powershell_quote ((body ++ apostrophe ∷ []) ++ rest) []).0
    ∙ ap (λ (s : Text). powershell_literal s false []) (append_assoc body (apostrophe ∷ []) rest)
    ∙ powershell_literal-replace value (apostrophe ∷ rest) [] straight
    ∙ (powershell_quote rest value).1
    ∙ powershell_literal-Ends rest value ends

literal_closed :
    (mark c : ℕ) (code out : Text)
    → is_single_quote mark ≡ true
    → is_single_quote c ≡ false
    → powershell_literal (mark ∷ c ∷ code) false out ≡ some (out, c ∷ code)
unfolding powershell_literal
literal_closed mark c code out curly plain = ground arith

replaced-mark : (c : ℕ) (to : Text) → c ≢ apostrophe → replaced apostrophe to c ≡ c ∷ []
replaced-mark c to other = ground arith

-- A value in which another of PowerShell's single quotation marks, the first such mark, stands before
-- a character that is no single quotation mark: PowerShell ends the literal at the mark, and reads
-- the rest of the value as code. `quote_powershell` doubles the apostrophe only.
pub powershell_word_ends_early :
    (before : Text) (mark c : ℕ) (after rest : Text)
    → Straight before
    → mark ≢ apostrophe
    → is_single_quote mark ≡ true
    → is_single_quote c ≡ false
    → powershell_word (quote_powershell (before ++ mark ∷ c ∷ after) ++ rest)
      ≡ some (before, c ∷ (replace apostrophe (codes "''") after ++ apostrophe ∷ rest))
unfolding quote_powershell
powershell_word_ends_early before mark c after rest straight other curly plain =
    let to = codes "''" in
    let body = replace apostrophe to (before ++ mark ∷ c ∷ after) in
    let code = replace apostrophe to after ++ apostrophe ∷ rest in
    (powershell_quote ((body ++ apostrophe ∷ []) ++ rest) []).0
    ∙ ap (λ (s : Text). powershell_literal s false []) split
    ∙ powershell_literal-replace before (mark ∷ c ∷ code) [] straight
    ∙ literal_closed mark c code before curly plain
  where
    split :
        (replace apostrophe (codes "''") (before ++ mark ∷ c ∷ after) ++ apostrophe ∷ []) ++ rest
        ≡ replace apostrophe (codes "''") before
          ++ mark ∷ c ∷ (replace apostrophe (codes "''") after ++ apostrophe ∷ rest)
    split = simp (
      replace-append,
      replace_cons,
      replaced-mark mark (codes "''") other,
      replaced-mark c (codes "''") (ground arith),
      append_assoc,
    )
