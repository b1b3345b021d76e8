-- ===== src/Permissions/Guardrails.antt =====
-- The default guardrails of davinci/permissions.py: destructive shell patterns on the way in, a size
-- cap on the way out.
use davinci_agent.Prelude.{
  String, Option, none, some, List, [], ◌∷◌, ltb, map, ◌<>◌, count, if◌then◌else◌,
}
use davinci_agent.Prelude.Dict.{values}
use davinci_agent.Prelude.Text.{codes, is_space, join}
use davinci_agent.Prelude.Value.{Value, str}
use davinci_agent.Prelude.Regex.{
  Regex, boundary, at_end, one, many, both, either, search, literal, some_of, is_word, any_char,
}
use davinci_agent.Permissions.Defs.{ToolAction}

abbrev text : String → Regex
text s = literal (codes s)

abbrev devices : Regex
devices = either (text "sd") (either (text "nvme") (text "xvd"))

-- rm\s+-rf\s+(/|~|\$HOME)(\s|$)
unfoldable pub rm_rf : Regex
rm_rf = both (text "rm") (
    both (some_of is_space) (
      both (text "-rf") (
        both (some_of is_space) (
          both (either (text "/") (either (text "~") (text "$HOME")))
            (either (one is_space) at_end)))))

-- :\(\)\s*\{\s*:\|:&\s*\}
fork_bomb : Regex
fork_bomb = both (text ":()") (
    both (many is_space) (
      both (text "{")
        (both (many is_space) (both (text ":|:&") (both (many is_space) (text "}"))))))

-- \bmkfs\.\w+\b
mkfs : Regex
mkfs = both boundary (both (text "mkfs.") (both (some_of is_word) boundary))

-- \bdd\b.*\bof=/dev/(sd|nvme|xvd)
dd_of : Regex
dd_of = both boundary (
    both (text "dd")
      (both boundary (both (many any_char) (both boundary (both (text "of=/dev/") devices)))))

-- >\s*/dev/(sd|nvme|xvd)
redirect : Regex
redirect = both (text ">") (both (many is_space) (both (text "/dev/") devices))

-- each pattern with its source text
unfoldable pub dangerous_patterns : List (String × Regex)
unfolding rm_rf fork_bomb mkfs dd_of redirect
dangerous_patterns =
    ("rm\\s+-rf\\s+(/|~|\\$HOME)(\\s|$)", rm_rf)
    ∷ (":\\(\\)\\s*\\{\\s*:\\|:&\\s*\\}", fork_bomb)
    ∷ ("\\bmkfs\\.\\w+\\b", mkfs)
    ∷ ("\\bdd\\b.*\\bof=/dev/(sd|nvme|xvd)", dd_of)
    ∷ (">\\s*/dev/(sd|nvme|xvd)", redirect)
    ∷ []

unfoldable pub first_pattern : List (String × Regex) → String → Option String
first_pattern [] blob = none
first_pattern ((source, pattern) ∷ rest) blob =
    if search pattern blob
    then some ("blocked dangerous command pattern: " <> source)
    else first_pattern rest blob

-- the arguments' values, as one text
unfoldable pub blob : ToolAction → String
blob action = join " " (map str (values action.args))

unfoldable pub default_input_validator : ToolAction → Option String
unfolding first_pattern
default_input_validator action = first_pattern dangerous_patterns (blob action)

unfoldable pub default_output_validator : ToolAction → Value → Option String
default_output_validator action result =
    if ltb 5000000 (count (str result)) then some "tool output exceeds 5 MB hard cap" else none
