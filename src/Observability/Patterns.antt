-- ===== src/Observability/Patterns.antt =====
-- `_SECRET_PATTERNS` of davinci/observability.py, and the substitution that masks what they match.
use Prim.Native.Char.{code}
use davinci_agent.Prelude.{
  ℕ, zero, suc, ◌+◌, ◌-◌, String, ◌<>◌, Bool, true, ◌&&◌, ◌||◌, Option, none, some, List, [], ◌∷◌,
  leb, eqb, length, if◌then◌else◌,
}
use davinci_agent.Prelude.Text
use davinci_agent.Prelude.Text.{codes, is_space, replace}
use davinci_agent.Prelude.Regex.{
  Regex, empty, one, many, lazy, both, either, run, match_at, literal, times,
}

abbrev pub mask : String
mask = "***REDACTED***"

fold_case : ℕ → ℕ
fold_case c = if leb b'A' c && leb c b'Z' then c + 32 else c

-- a literal text under `(?i)`
any_case : List ℕ → Regex
unfolding fold_case
any_case [] = empty
any_case (c ∷ s) = both (one (λ d. eqb (fold_case d) (fold_case c))) (any_case s)

abbrev word : String → Regex
word s = any_case (codes s)

abbrev is_upper : ℕ → Bool
is_upper c = leb b'A' c && leb c b'Z'

abbrev is_digit : ℕ → Bool
is_digit c = leb b'0' c && leb c b'9'

abbrev is_alnum : ℕ → Bool
is_alnum c = (leb b'a' c && leb c b'z') || is_upper c || is_digit c

abbrev is_key_char : ℕ → Bool
is_key_char c = is_alnum c || eqb c b'_' || eqb c b'-' || eqb c b'.'

optional : (ℕ → Bool) → Regex
optional f = either (one f) empty

-- r{n,}, for a class
at_least : ℕ → (ℕ → Bool) → Regex
at_least n f = both (times n (one f)) (many f)

-- (?i)(api[_-]?key|secret|token|password|passwd|authorization|bearer)\s*[=:]\s*['"]?
key_prefix : Regex
unfolding any_case optional
key_prefix =
    both
      (either (both (word "api") (both (optional (λ c. eqb c b'_' || eqb c b'-')) (word "key"))) (
        either (word "secret") (
          either (word "token") (
            either (word "password")
              (either (word "passwd") (either (word "authorization") (word "bearer")))))))
      (both (many is_space) (
        both (one (λ c. eqb c b'=' || eqb c b':'))
          (both (many is_space) (optional (λ c. eqb c 39 || eqb c 34)))))

-- ([A-Za-z0-9_\-\.]{6,}), the second group
key_value : Regex
unfolding at_least
key_value = at_least 6 is_key_char

-- sk-[A-Za-z0-9]{16,}
pub openai_key : Regex
unfolding at_least
openai_key = both (literal (codes "sk-")) (at_least 16 is_alnum)

-- ghp_[A-Za-z0-9]{20,}
pub github_token : Regex
unfolding at_least
github_token = both (literal (codes "ghp_")) (at_least 20 is_alnum)

-- AKIA[0-9A-Z]{16}
pub aws_key : Regex
aws_key = both (literal (codes "AKIA")) (times 16 (one (λ c. is_digit c || is_upper c)))

key_line : String → Regex
key_line word =
    both (literal (codes word))
      (both (many (λ c. is_upper c || eqb c 32)) (literal (codes "PRIVATE KEY-----")))

-- -----BEGIN [A-Z ]*PRIVATE KEY-----[\s\S]+?-----END [A-Z ]*PRIVATE KEY-----
pub private_key : Regex
unfolding key_line
private_key =
    both (key_line "-----BEGIN ")
      (both (one (λ c. true)) (both (lazy (λ c. true)) (key_line "-----END ")))

-- the lengths of a match at a place, before the second group and with it
unfoldable pub group_match : List ℕ → Option ℕ → Option (ℕ × ℕ)
unfolding key_prefix key_value
group_match s prev =
    run key_prefix (λ p. run key_value (λ q. some (length s - length p.1, length s - length q.1)) p)
      (prev, s)

-- pat.sub(lambda m: m.group(0).replace(m.group(2), _MASK), text). `skip` characters are matched.
unfoldable pub sub_group : ℕ → Option ℕ → String → String
unfolding group_match
sub_group skip prev String.[] = ""
sub_group (suc skip) prev (String.◌∷◌ c s) = sub_group skip (some (code c)) s
sub_group zero prev (String.◌∷◌ c s) =
    let next : ℕ → String = λ n. sub_group n (some (code c)) s in
    elim (group_match (codes (String.◌∷◌ c s)) prev) [
      | none ↦ String.◌∷◌ c (next 0)
      | some (before, whole) ↦
          let found = Text.take whole (String.◌∷◌ c s) in
          replace (Text.drop before found) mask found <> next (whole - 1)
    ]

-- pat.sub(_MASK, text)
unfoldable pub sub_all : Regex → ℕ → Option ℕ → String → String
unfolding match_at
sub_all r skip prev String.[] = ""
sub_all r (suc skip) prev (String.◌∷◌ c s) = sub_all r skip (some (code c)) s
sub_all r zero prev (String.◌∷◌ c s) =
    let next : ℕ → String = λ n. sub_all r n (some (code c)) s in
    elim (match_at r (prev, codes (String.◌∷◌ c s))) [
      | none ↦ String.◌∷◌ c (next 0)
      | some (prev', rest) ↦ mask <> next (length (codes s) - length rest)
    ]

-- the loop of `mask_secrets` over the patterns, for a text
unfoldable pub mask_text : String → String
unfolding sub_group sub_all openai_key github_token aws_key private_key
mask_text s = sub_all private_key 0 none (
    sub_all aws_key 0 none
      (sub_all github_token 0 none (sub_all openai_key 0 none (sub_group 0 none s))))
