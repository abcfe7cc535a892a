-- ===== src/Shell/Init.antt =====
-- The shell functions that start the vendors' tools: `shell_init` of src/shell.rs. A path is its
-- text, or `none` if it is not UTF-8.
use aictx.Base.{Option, none, some, [], ◌++◌, Text, codes, Result, ok, ok_or, ◌>>=◌}
use aictx.Shell.Quote.{Shell, quote_posix, quote_fish, quote_powershell}

-- The errors of the two functions, without their messages.
pub data ShellError : Type 0 where
  invalid_config vendor_incompatible : ShellError

unfoldable pub quote : Shell → Text → Text
quote Shell.bash value = quote_posix value
quote Shell.zsh value = quote_posix value
quote Shell.fish value = quote_fish value
quote Shell.powershell value = quote_powershell value

unfoldable pub root_argument : Shell → Option Text → Text
root_argument shell none = []
root_argument shell (some root) = codes " --root " ++ quote shell root

-- One command line up to its arguments, and what follows it in the script.
abbrev pub invocation : Shell → Text → Option Text → Text → Text → Text
invocation shell executable root name rest =
    quote shell executable ++ (root_argument shell root ++ (codes " run " ++ (name ++ rest)))

-- The fixed texts of the three `format!` calls.
pub record Template : Type 0 where
  pub first : Text
  pub arguments : Text
  pub second : Text
  pub closing : Text

unfoldable pub template : Shell → Template
template Shell.fish = record {
  first = codes "function claude\n    command ";
  arguments = codes "$argv";
  second = codes "\nend\nfunction codex\n    command ";
  closing = codes "\nend";
}
template Shell.powershell = record {
  first = codes "function claude {\n    & ";
  arguments = codes "@args";
  second = codes "\n}\nfunction codex {\n    & ";
  closing = codes "\n}";
}
template _ = record {
  first = codes "claude() {\n  command ";
  arguments = codes "\"$@\"";
  second = codes "\n}\ncodex() {\n  command ";
  closing = codes "\n}";
}

unfoldable pub render : Shell → Text → Option Text → Text
unfolding template
render shell executable root =
    let t = template shell in
    t.first
    ++ invocation shell executable root (codes "claude") (
        codes " -- "
        ++ (t.arguments
            ++ (t.second
                ++ invocation shell executable root (codes "codex")
                    (codes " -- " ++ (t.arguments ++ t.closing)))))

-- `option.transpose()` of the optional root.
unfoldable pub utf8_root : Option (Option Text) → Result ShellError (Option Text)
utf8_root none = ok none
utf8_root (some path) = do root ← ok_or path ShellError.invalid_config; ok (some root)

unfoldable pub shell_init : Shell → Option Text → Option (Option Text) → Result ShellError Text
unfolding quote root_argument render utf8_root
shell_init shell executable root = do
  executable' ← ok_or executable ShellError.invalid_config
  root' ← utf8_root root
  ok (render shell executable' root')
