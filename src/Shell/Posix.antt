-- ===== src/Shell/Posix.antt =====
-- The words of bash and zsh that src/shell.rs quotes.
use mathlib.Core.List.{flat_map, append_assoc, append-nil}
use aictx.Base.{ℕ, ◌≡◌, refl, ap, ◌∙◌, some, [], ◌∷◌, ◌++◌, Text, codes, arith, nat_eq}
use aictx.Shell.Quote.{apostrophe, replaced, replace, quote_posix}
use aictx.Shell.Words.{Ends, Mode, posix_word}

posix_word-Ends : (rest out : Text) → Ends rest → posix_word rest Mode.plain out ≡ some (out, rest)
unfolding posix_word
posix_word-Ends [] out ends = refl
posix_word-Ends (c ∷ s) out ends = ground arith

posix_word-replaced :
    (c : ℕ) (rest out : Text)
    → posix_word (replaced apostrophe (codes "'\\''") c ++ rest) Mode.quoted out
      ≡ posix_word rest Mode.quoted (out ++ c ∷ [])
unfolding posix_word
posix_word-replaced c rest out = ground arith

posix_word-replace :
    (value rest out : Text)
    → posix_word (replace apostrophe (codes "'\\''") value ++ rest) Mode.quoted out
      ≡ posix_word rest Mode.quoted (out ++ value)
unfolding replace flat_map
posix_word-replace [] rest out = rw append-nil
posix_word-replace (c ∷ s) rest out = simp (posix_word-replaced, posix_word-replace s, append_assoc)

posix_word_quote :
    (rest out : Text)
    → (posix_word (apostrophe ∷ rest) Mode.plain out ≡ posix_word rest Mode.quoted out)
      × (posix_word (apostrophe ∷ rest) Mode.quoted out ≡ posix_word rest Mode.plain out)
unfolding posix_word
posix_word_quote rest out = ground arith

pub posix_word-quote_posix :
    (value rest : Text)
    → Ends rest
    → posix_word (quote_posix value ++ rest) Mode.plain [] ≡ some (value, rest)
unfolding quote_posix
posix_word-quote_posix value rest ends =
    let body = replace apostrophe (codes "'\\''") value in
    (posix_word_quote ((body ++ apostrophe ∷ []) ++ rest) []).0
    ∙ ap (λ (s : Text). posix_word s Mode.quoted []) (append_assoc body (apostrophe ∷ []) rest)
    ∙ posix_word-replace value (apostrophe ∷ rest) []
    ∙ (posix_word_quote rest value).1
    ∙ posix_word-Ends rest value ends
