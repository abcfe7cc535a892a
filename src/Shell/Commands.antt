-- ===== src/Shell/Commands.antt =====
-- The command lines of the shell functions, as the shells read them: `shell_init` of src/shell.rs.
use mathlib.Core.List.{append_assoc}
use mathlib.Core.Option
use aictx.Base.{ℕ_discrete, ◌≡◌, refl, ap, ◌∙◌, Option, none, some, [], ◌++◌, Text, codes, ok}
use aictx.Shell.Quote.{Shell}
use aictx.Shell.Words.{Read, Ends, Mode, posix_word, fish_word, powershell_word}
use aictx.Shell.Posix.{posix_word-quote_posix}
use aictx.Shell.Fish.{fish_word-quote_fish}
use aictx.Shell.Powershell.{Straight, powershell_word-quote_powershell}
use aictx.Shell.Init.{quote, root_argument, invocation, render, utf8_root, shell_init}

unfoldable pub read_word : Shell → Text → Read
read_word Shell.fish text = fish_word text Mode.plain []
read_word Shell.powershell text = powershell_word text
read_word _ text = posix_word text Mode.plain []

-- What the quoting covers: any text, but for PowerShell's own quotation marks.
abbrev pub Quotable : Shell → Text → Type 0
Quotable Shell.powershell text = Straight text
Quotable _ text = Unit {0}

-- A shell reads a quoted text as the one word that it is, whatever follows behind a blank.
pub read_word-quote :
    (shell : Shell) (value rest : Text)
    → Quotable shell value
    → Ends rest
    → read_word shell (quote shell value ++ rest) ≡ some (value, rest)
unfolding read_word quote
read_word-quote Shell.bash value rest q ends = posix_word-quote_posix value rest ends
read_word-quote Shell.zsh value rest q ends = posix_word-quote_posix value rest ends
read_word-quote Shell.fish value rest q ends = fish_word-quote_fish value rest ends
read_word-quote Shell.powershell value rest q ends =
    powershell_word-quote_powershell value rest q ends

-- The text starts a command whose words are the executable, the root if there is one, and
-- `run name`; the rest stands behind them.
pub data Runs (shell : Shell) (executable name rest : Text) : Option Text → Text → Type 0 where
  bare :
      {text : Text}
      → read_word shell text ≡ some (executable, codes " run " ++ (name ++ rest))
      → Runs shell executable name rest none text
  rooted :
      {text : Text} (root tail : Text)
      → read_word shell text ≡ some (executable, codes " --root " ++ tail)
      → read_word shell tail ≡ some (root, codes " run " ++ (name ++ rest))
      → Runs shell executable name rest (some root) text

abbrev pub QuotableRoot : Shell → Option Text → Type 0
QuotableRoot shell none = Unit {0}
QuotableRoot shell (some root) = Quotable shell root

invocation-Runs :
    (shell : Shell) (executable : Text) (root : Option Text) (name rest : Text)
    → Quotable shell executable
    → QuotableRoot shell root
    → Runs shell executable name rest root (invocation shell executable root name rest)
unfolding root_argument ℕ_discrete
invocation-Runs shell executable none name rest q r =
    Runs.bare (read_word-quote shell executable (codes " run " ++ (name ++ rest)) q refl)
invocation-Runs shell executable (some root) name rest q r =
    let behind = codes " run " ++ (name ++ rest) in
    Runs.rooted root (quote shell root ++ behind)
      (ap (λ (t : Text). read_word shell (quote shell executable ++ t))
          (append_assoc (codes " --root ") (quote shell root) behind)
        ∙ read_word-quote shell executable (codes " --root " ++ (quote shell root ++ behind)) q
            refl)
      (read_word-quote shell root behind r refl)

-- The head of a function in the shell's language, up to its one command. `command` keeps a POSIX
-- shell and fish from calling the function again; `&` makes PowerShell run the quoted word.
abbrev pub function_head : Shell → Text → Text
function_head Shell.fish name = codes "function " ++ (name ++ codes "\n    command ")
function_head Shell.powershell name = codes "function " ++ (name ++ codes " {\n    & ")
function_head _ name = name ++ codes "() {\n  command "

-- All the arguments of the function, each as its own word.
abbrev pub own_arguments : Shell → Text
own_arguments Shell.fish = codes "$argv"
own_arguments Shell.powershell = codes "@args"
own_arguments _ = codes "\"$@\""

abbrev pub function_end : Shell → Text
function_end Shell.fish = codes "\nend"
function_end _ = codes "\n}"

-- The text is a function of this name, and the rest behind it: its one command runs the executable,
-- under its root, for the name, and passes the function's own arguments on behind `--`.
pub record Function (shell : Shell) (executable name : Text) (root : Option Text) (text rest : Text)
    : Type 0 where
  pub command : Text
  pub opened : text ≡ function_head shell name ++ command
  pub runs :
      Runs shell executable name
        (codes " -- " ++ (own_arguments shell ++ (function_end shell ++ rest)))
        root
        command

-- The script is a function `claude` and, on the next line, a function `codex`, and nothing else.
pub record Script (shell : Shell) (executable : Text) (root : Option Text) (text : Text)
    : Type 0 where
  pub codex_text : Text
  pub claude : Function shell executable (codes "claude") root text (codes "\n" ++ codex_text)
  pub codex : Function shell executable (codes "codex") root codex_text []

-- The text that the two functions make.
abbrev function_text : Shell → Text → Option Text → Text → Text → Text
function_text shell executable root name rest =
    function_head shell name
    ++ invocation shell executable root name
        (codes " -- " ++ (own_arguments shell ++ (function_end shell ++ rest)))

functions :
    (shell : Shell) (executable : Text) (root : Option Text)
    → Quotable shell executable
    → QuotableRoot shell root
    → {text : Text}
    → text
      ≡ function_text shell executable root
          (codes "claude")
          (codes "\n" ++ function_text shell executable root (codes "codex") [])
    → Script shell executable root text
functions shell executable root q r whole = record {
  codex_text = function_text shell executable root (codes "codex") [];
  claude = record {
    command = _;
    opened = whole;
    runs = invocation-Runs shell executable root (codes "claude") _ q r;
  };
  codex = record {
    command = _;
    opened = refl;
    runs = invocation-Runs shell executable root (codes "codex") _ q r;
  };
}

render-Script :
    (shell : Shell) (executable : Text) (root : Option Text)
    → Quotable shell executable
    → QuotableRoot shell root
    → Script shell executable root (render shell executable root)
unfolding render
render-Script Shell.bash executable root q r = functions Shell.bash executable root q r refl
render-Script Shell.zsh executable root q r = functions Shell.zsh executable root q r refl
render-Script Shell.fish executable root q r = functions Shell.fish executable root q r refl
render-Script Shell.powershell executable root q r =
    functions Shell.powershell executable root q r refl

-- For an executable and a root that the shell can be given in quotes (any text but, for PowerShell,
-- one with another single quotation mark than the apostrophe), the script that the shell is given is
-- a function `claude` and a function `codex`. The command of each, read by the rules of that shell,
-- runs exactly this executable, with this root if there is one, for the function's own name, and
-- passes the function's arguments on.
pub shell_init-Script :
    (shell : Shell) (executable : Text) (root : Option Text)
    → Quotable shell executable
    → QuotableRoot shell root
    → (text : Text) × (shell_init shell (some executable) (Option.map some root) ≡ ok text)
      × Script shell executable root text
unfolding shell_init utf8_root
shell_init-Script shell executable none q r =
    (render shell executable none, refl, render-Script shell executable none q r)
shell_init-Script shell executable (some root) q r =
    (render shell executable (some root), refl, render-Script shell executable (some root) q r)
