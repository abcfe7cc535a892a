-- ===== src/Shell/Fish.antt =====
-- The words of fish that src/shell.rs quotes.
use mathlib.Core.List.{flat_map, append_assoc, append-nil}
use aictx.Base.{ℕ, ◌≡◌, refl, ap, ◌∙◌, some, [], ◌∷◌, ◌++◌, Text, codes, arith, nat_eq}
use aictx.Shell.Quote.{
  apostrophe, backslash, replaced, replace, replace-append, replace_cons, quote_fish,
}
use aictx.Shell.Words.{Ends, Mode, fish_word}

fish_word-Ends : (rest out : Text) → Ends rest → fish_word rest Mode.plain out ≡ some (out, rest)
unfolding fish_word
fish_word-Ends [] out ends = refl
fish_word-Ends (c ∷ s) out ends = ground arith

fish_word_quote :
    (rest out : Text)
    → (fish_word (apostrophe ∷ rest) Mode.plain out ≡ fish_word rest Mode.quoted out)
      × (fish_word (apostrophe ∷ rest) Mode.quoted out ≡ fish_word rest Mode.plain out)
unfolding fish_word
fish_word_quote rest out = ground arith

-- One character after both replacements.
abbrev escape : ℕ → Text
escape c = replace apostrophe (codes "\\'") (replaced backslash (codes "\\\\") c)

fish_word-escape :
    (c : ℕ) (rest out : Text)
    → fish_word (escape c ++ rest) Mode.quoted out ≡ fish_word rest Mode.quoted (out ++ c ∷ [])
unfolding fish_word replace flat_map
fish_word-escape c rest out = ground arith

fish_word-replace :
    (value rest out : Text)
    → fish_word
        (replace apostrophe (codes "\\'") (replace backslash (codes "\\\\") value) ++ rest)
        Mode.quoted
        out
      ≡ fish_word rest Mode.quoted (out ++ value)
unfolding replace flat_map
fish_word-replace [] rest out = rw append-nil
fish_word-replace (c ∷ s) rest out =
    simp (replace_cons, replace-append, append_assoc, fish_word-escape, fish_word-replace s)

pub fish_word-quote_fish :
    (value rest : Text)
    → Ends rest
    → fish_word (quote_fish value ++ rest) Mode.plain [] ≡ some (value, rest)
unfolding quote_fish
fish_word-quote_fish value rest ends =
    let body = replace apostrophe (codes "\\'") (replace backslash (codes "\\\\") value) in
    (fish_word_quote ((body ++ apostrophe ∷ []) ++ rest) []).0
    ∙ ap (λ (s : Text). fish_word s Mode.quoted []) (append_assoc body (apostrophe ∷ []) rest)
    ∙ fish_word-replace value (apostrophe ∷ rest) []
    ∙ (fish_word_quote rest value).1
    ∙ fish_word-Ends rest value ends
