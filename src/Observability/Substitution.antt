-- ===== src/Observability/Substitution.antt =====
-- `pat.sub` as a relation between a text and what comes out (davinci/observability.py).
use Prim.Native.Char.{Char, code}
use text.Mathlib.TextLemmas.{length-cons}
use davinci_agent.Prelude.{
  ℕ, zero, suc, ◌-◌, ◌≤◌, ◌≡◌, refl, String, ◌<>◌, count, Option, none, some, List, length, arith,
  Option-cases, inl, inr, subst, sym, ap,
}
use davinci_agent.Prelude.Text
use davinci_agent.Prelude.Text.{codes, replace, count-drop}
use davinci_agent.Prelude.Regex.{Regex, match_at}
use davinci_agent.Observability.Patterns.{
  mask, group_match, sub_group, sub_all, openai_key, github_token, aws_key, private_key, mask_text,
}

-- the last of a character and the first characters of a text
abbrev pub last_of : ℕ → Char → String → Char
last_of zero c s = c
last_of (suc n) c String.[] = c
last_of (suc n) c (String.◌∷◌ d s) = last_of n d s

-- What a pattern finds at the beginning of a text, after a character: what takes its place, and how
-- many characters beyond the first it takes.
abbrev pub Finder : Type 0
Finder = Option ℕ → Char → String → Option (String × ℕ)

-- A text from left to right: a character at which nothing is found stays, and what is found is
-- replaced, after which the search goes on behind it.
pub data IsReplaced (find : Finder) : Option ℕ → String → String → Type 0 where
  done : {prev : Option ℕ} → IsReplaced find prev "" ""
  kept :
      {prev : Option ℕ} {c : Char} {s out : String}
      → find prev c s ≡ none
      → IsReplaced find (some (code c)) s out
      → IsReplaced find prev (String.◌∷◌ c s) (String.◌∷◌ c out)
  hit :
      {prev : Option ℕ} {c : Char} {s out : String} (by : String) (n : ℕ)
      → find prev c s ≡ some (by, n)
      → IsReplaced find (some (code (last_of n c s))) (Text.drop n s) out
      → IsReplaced find prev (String.◌∷◌ c s) (by <> out)

-- the whole match, which the mask takes the place of
abbrev pub whole_match : Regex → Finder
whole_match r prev c s = elim (match_at r (prev, codes (String.◌∷◌ c s))) [
  | none ↦ none
  | some (after, rest) ↦ some (mask, length (codes s) - length rest)
]

-- the match with the mask in place of its second group
abbrev pub second_group : Finder
second_group prev c s = elim (group_match (codes (String.◌∷◌ c s)) prev) [
  | none ↦ none
  | some (before, whole) ↦
      let found = Text.take whole (String.◌∷◌ c s) in
      some (replace (Text.drop before found) mask found, whole - 1)
]

sub_all-skip :
    (r : Regex) (n : ℕ) (c : Char) (s : String)
    → sub_all r n (some (code c)) s ≡ sub_all r 0 (some (code (last_of n c s))) (Text.drop n s)
unfolding sub_all
sub_all-skip r zero c s = refl
sub_all-skip r (suc n) c String.[] = refl
sub_all-skip r (suc n) c (String.◌∷◌ d s) = sub_all-skip r n d s

sub_group-skip :
    (n : ℕ) (c : Char) (s : String)
    → sub_group n (some (code c)) s ≡ sub_group 0 (some (code (last_of n c s))) (Text.drop n s)
unfolding sub_group
sub_group-skip zero c s = refl
sub_group-skip (suc n) c String.[] = refl
sub_group-skip (suc n) c (String.◌∷◌ d s) = sub_group-skip n d s

sub_all-none :
    (r : Regex) (prev : Option ℕ) (c : Char) (s : String)
    → match_at r (prev, codes (String.◌∷◌ c s)) ≡ none
    → sub_all r 0 prev (String.◌∷◌ c s) ≡ String.◌∷◌ c (sub_all r 0 (some (code c)) s)
unfolding sub_all
sub_all-none r prev c s e = rw (sub_all, e) refl

sub_all-some :
    (r : Regex) (prev : Option ℕ) (c : Char) (s : String) (after : Option ℕ) (rest : List ℕ)
    → match_at r (prev, codes (String.◌∷◌ c s)) ≡ some (after, rest)
    → let n = length (codes s) - length rest in
      sub_all r 0 prev (String.◌∷◌ c s)
      ≡ mask <> sub_all r 0 (some (code (last_of n c s))) (Text.drop n s)
unfolding sub_all
sub_all-some r prev c s after rest e =
    rw (sub_all, e) (ap (λ t. mask <> t) (sub_all-skip r (length (codes s) - length rest) c s))

sub_group-none :
    (prev : Option ℕ) (c : Char) (s : String)
    → group_match (codes (String.◌∷◌ c s)) prev ≡ none
    → sub_group 0 prev (String.◌∷◌ c s) ≡ String.◌∷◌ c (sub_group 0 (some (code c)) s)
unfolding sub_group
sub_group-none prev c s e = rw (sub_group, e) refl

sub_group-some :
    (prev : Option ℕ) (c : Char) (s : String) (before whole : ℕ)
    → group_match (codes (String.◌∷◌ c s)) prev ≡ some (before, whole)
    → let found = Text.take whole (String.◌∷◌ c s) in
      sub_group 0 prev (String.◌∷◌ c s)
      ≡ replace (Text.drop before found) mask found
        <> sub_group 0 (some (code (last_of (whole - 1) c s))) (Text.drop (whole - 1) s)
unfolding sub_group
sub_group-some prev c s before whole e =
    let found = Text.take whole (String.◌∷◌ c s) in
    rw (sub_group, e)
      (ap (λ t. replace (Text.drop before found) mask found <> t) (sub_group-skip (whole - 1) c s))

shorter :
    (n fuel : ℕ) (c : Char) (s : String)
    → count (String.◌∷◌ c s) ≤ suc fuel
    → count (Text.drop n s) ≤ fuel
shorter n fuel c s h = omega (arith, length-cons c s, count-drop n s, h)

sub_all-from :
    (r : Regex) (fuel : ℕ) (prev : Option ℕ) (s : String)
    → count s ≤ fuel
    → IsReplaced (whole_match r) prev s (sub_all r 0 prev s)
sub_all-from r fuel prev String.[] h = unfold sub_all in IsReplaced.done
sub_all-from r zero prev (String.◌∷◌ c s) h = absurd (omega (arith, length-cons c s))
sub_all-from r (suc fuel) prev (String.◌∷◌ c s) h =
    elim (Option-cases (match_at r (prev, codes (String.◌∷◌ c s)))) [
      | inl e ↦
          subst (IsReplaced (whole_match r) prev (String.◌∷◌ c s)) (sym (sub_all-none r prev c s e))
            (IsReplaced.kept (rw (whole_match, e) refl)
              (sub_all-from r fuel (some (code c)) s (shorter 0 fuel c s h)))
      | inr ((after, rest), e) ↦
          let n = length (codes s) - length rest in
          subst (IsReplaced (whole_match r) prev (String.◌∷◌ c s))
            (sym (sub_all-some r prev c s after rest e))
            (IsReplaced.hit mask n (rw (whole_match, e) refl) (
              sub_all-from r fuel (some (code (last_of n c s))) (Text.drop n s)
                (shorter n fuel c s h)))
    ]

sub_group-from :
    (fuel : ℕ) (prev : Option ℕ) (s : String)
    → count s ≤ fuel
    → IsReplaced second_group prev s (sub_group 0 prev s)
sub_group-from fuel prev String.[] h = unfold sub_group in IsReplaced.done
sub_group-from zero prev (String.◌∷◌ c s) h = absurd (omega (arith, length-cons c s))
sub_group-from (suc fuel) prev (String.◌∷◌ c s) h =
    elim (Option-cases (group_match (codes (String.◌∷◌ c s)) prev)) [
      | inl e ↦
          subst (IsReplaced second_group prev (String.◌∷◌ c s)) (sym (sub_group-none prev c s e)) (
            IsReplaced.kept (rw (second_group, e) refl)
              (sub_group-from fuel (some (code c)) s (shorter 0 fuel c s h)))
      | inr ((before, whole), e) ↦
          let n = whole - 1 in
          subst (IsReplaced second_group prev (String.◌∷◌ c s))
            (sym (sub_group-some prev c s before whole e))
            (IsReplaced.hit _ n (rw (second_group, e) refl) (
              sub_group-from fuel (some (code (last_of n c s))) (Text.drop n s)
                (shorter n fuel c s h)))
    ]

-- The patterns are applied one after the other: in each match of the first its second group is
-- masked, and each match of one of the others becomes the mask.
pub record IsMaskedText (s out : String) : Type 0 where
  pub without_pairs : String
  pub without_openai : String
  pub without_github : String
  pub without_aws : String
  pub pairs : IsReplaced second_group none s without_pairs
  pub openai : IsReplaced (whole_match openai_key) none without_pairs without_openai
  pub github : IsReplaced (whole_match github_token) none without_openai without_github
  pub aws : IsReplaced (whole_match aws_key) none without_github without_aws
  pub private : IsReplaced (whole_match private_key) none without_aws out

pub mask_text-IsMaskedText : (s : String) → IsMaskedText s (mask_text s)
unfolding mask_text
mask_text-IsMaskedText s =
    let t₁ = sub_group 0 none s in
    let t₂ = sub_all openai_key 0 none t₁ in
    let t₃ = sub_all github_token 0 none t₂ in
    let t₄ = sub_all aws_key 0 none t₃ in
    record {
      without_pairs = t₁;
      without_openai = t₂;
      without_github = t₃;
      without_aws = t₄;
      pairs = sub_group-from (count s) none s (omega arith);
      openai = sub_all-from openai_key (count t₁) none t₁ (omega arith);
      github = sub_all-from github_token (count t₂) none t₂ (omega arith);
      aws = sub_all-from aws_key (count t₃) none t₃ (omega arith);
      private = sub_all-from private_key (count t₄) none t₄ (omega arith);
    }
