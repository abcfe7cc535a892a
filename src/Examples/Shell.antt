-- ===== src/Examples/Shell.antt =====
-- The theorems on the shell integration at concrete texts: src/shell.rs.
use aictx.Base.{ℕ_discrete, ◌≡◌, refl, some, [], ◌∷◌, ◌++◌, Text, codes, ok, arith}
use aictx.Shell.Mask.{mask_identity}
use aictx.Shell.Quote.{Shell, apostrophe, replace, quote_powershell}
use aictx.Shell.Words.{powershell_word}
use aictx.Shell.Powershell.{powershell_word_ends_early}
use aictx.Shell.Init.{shell_init}
use aictx.Shell.Commands.{Script, shell_init-Script}

masks_address : mask_identity (codes "miki@company.example") ≡ codes "m***@company.example"
unfolding mask_identity ℕ_discrete
masks_address = refl

masks_id : mask_identity (codes "ws_12345678") ≡ codes "***5678"
unfolding mask_identity ℕ_discrete
masks_id = refl

abbrev executable : Text
executable = codes "/opt/it's/ctxlane"

shell_init-Script_example :
    (text : Text) × (shell_init Shell.bash (some executable) (some (some (codes "/root")))
      ≡ ok text)
    × Script Shell.bash executable (some (codes "/root")) text
shell_init-Script_example = shell_init-Script Shell.bash executable (some (codes "/root")) tt tt

-- A directory whose name holds a right quotation mark.
powershell_word_ends_early_example :
    powershell_word (quote_powershell (codes "C:\\it" ++ 0x2019 ∷ b';' ∷ codes "calc") ++ [])
    ≡ some
        (codes "C:\\it", b';' ∷ (replace apostrophe (codes "''") (codes "calc") ++ apostrophe ∷ []))
powershell_word_ends_early_example =
    powershell_word_ends_early (codes "C:\\it") 0x2019 b';' (codes "calc") [] (ground arith)
      (omega arith) (ground arith) (ground arith)
