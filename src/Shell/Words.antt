-- ===== src/Shell/Words.antt =====
-- How the shells read a quoted word: the rules of their languages, against which the quoting of
-- src/shell.rs is checked.
use aictx.Base.{
  ℕ, ◌≡◌, Bool, true, false, ◌&&◌, ◌||◌, Option, none, some, [], ◌∷◌, ◌++◌, Text, ◌==◌, leb,
  if◌then◌else◌, nat_eq, codes, contains,
}
use aictx.Shell.Quote.{apostrophe, backslash}

-- The word read, and the text behind it.
abbrev pub Read : Type 0
Read = Option (Text × Text)

abbrev pub is_blank : ℕ → Bool
is_blank c = c == b' ' || c == b'\n'

-- The text behind a word is at its end, or starts with a blank.
abbrev pub Ends : Text → Type 0
Ends [] = Unit {0}
Ends (c ∷ s) = is_blank c ≡ true

-- Where the reader stands: outside quotes, inside single quotes, behind a backslash.
pub data Mode : Type 0 where
  plain quoted escaped : Mode

-- A character that means something to the shell where it stands unquoted.
abbrev pub is_special : ℕ → Bool
is_special c = contains (codes "\"$`&|;<>()*?[]#~=%!{}\t") c

-- POSIX, 2.2: single quotes keep every character; outside them a backslash keeps the next one, and
-- the word ends at a blank. A word that uses anything else is not read.
unfoldable pub posix_word : Text → Mode → Text → Read
posix_word [] Mode.plain out = some (out, [])
posix_word [] mode out = none
posix_word (c ∷ s) Mode.quoted out =
    let close = posix_word s Mode.plain out in
    let keep = posix_word s Mode.quoted (out ++ c ∷ []) in if c == apostrophe then close else keep
posix_word (c ∷ s) Mode.escaped out = posix_word s Mode.plain (out ++ c ∷ [])
posix_word (c ∷ s) Mode.plain out =
    let start = posix_word s Mode.quoted out in
    let escape = posix_word s Mode.escaped out in
    let keep = posix_word s Mode.plain (out ++ c ∷ []) in
    if is_blank c
    then some (out, c ∷ s)
    else if c == apostrophe
    then start
    else if c == backslash
    then escape
    else if is_special c
    then none
    else keep

-- fish: inside single quotes a backslash keeps a backslash or an apostrophe, and stands for itself
-- before any other character. `escaped` is a backslash inside the quotes; a word that goes on
-- unquoted behind the quotes is not read.
unfoldable pub fish_word : Text → Mode → Text → Read
fish_word [] Mode.plain out = some (out, [])
fish_word [] mode out = none
fish_word (c ∷ s) Mode.plain out =
    let start = fish_word s Mode.quoted out in
    if is_blank c then some (out, c ∷ s) else if c == apostrophe then start else none
fish_word (c ∷ s) Mode.quoted out =
    let close = fish_word s Mode.plain out in
    let escape = fish_word s Mode.escaped out in
    let keep = fish_word s Mode.quoted (out ++ c ∷ []) in
    if c == apostrophe then close else if c == backslash then escape else keep
fish_word (c ∷ s) Mode.escaped out =
    fish_word s Mode.quoted
      (out ++ (if c == apostrophe || c == backslash then c ∷ [] else backslash ∷ c ∷ []))

-- PowerShell takes the quotation marks U+2018 to U+201B for apostrophes.
abbrev pub is_single_quote : ℕ → Bool
is_single_quote c = c == apostrophe || leb 0x2018 c && leb c 0x201b

-- Inside single quotes two of them stand for the second; any other text keeps itself. The flag says
-- that one was read.
unfoldable pub powershell_literal : Text → Bool → Text → Read
powershell_literal [] true out = some (out, [])
powershell_literal [] false out = none
powershell_literal (c ∷ s) true out =
    let keep = powershell_literal s false (out ++ c ∷ []) in
    if is_single_quote c then keep else some (out, c ∷ s)
powershell_literal (c ∷ s) false out =
    let close = powershell_literal s true out in
    let keep = powershell_literal s false (out ++ c ∷ []) in
    if is_single_quote c then close else keep

unfoldable pub powershell_word : Text → Read
unfolding powershell_literal
powershell_word [] = none
powershell_word (c ∷ s) = if is_single_quote c then powershell_literal s false [] else none
