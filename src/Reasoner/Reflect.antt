-- ===== src/Reasoner/Reflect.antt =====
-- What the engine can rely on in a reflection and in a plan of `LLMReasoner` (davinci/reasoner.py),
-- whatever the reply says.
use davinci_agent.Prelude.{
  zero, suc, String, ◌<>◌, ◌≡◌, refl, true, false, Option, none, some, List, [], ◌∷◌, map, any, inl,
  inr, ◌⊎◌, arith, or_else,
}
use davinci_agent.Prelude.Value.{Value, null, bool, int, string, list, dict, Fields, get, truthy}
use davinci_agent.Prelude.Int.{pos, negsuc}
use davinci_agent.Planning.Defs.{failed, is_status, PlanStep, Plan, has_failures}
use davinci_agent.Engine.Defs.{Reflection}
use davinci_agent.Engine.Offline.{failed_titles, reflect as reflect_offline}
use davinci_agent.Reasoner.Decide.{
  iterated, no_titles, reflection_of, reflected, decided, parsed_reply, reflect,
}

-- Not satisfied with a plan that has failures, and then with something to do.
pub record IsUsable (p : Plan) (r : Reflection) : Type 0 where
  pub honest : has_failures p ≡ true → r.satisfied ≡ false
  pub useful : has_failures p ≡ true → no_titles r.replan_titles ≡ false

failed-some :
    (steps : List PlanStep)
    → any (λ s. is_status failed s.status) steps ≡ true
    → no_titles (map (λ t. "Retry: " <> t) (failed_titles steps)) ≡ false
failed-some [] e = absurd (ground arith)
failed-some (s ∷ steps) e = ground (arith, failed-some steps)

reflection_of-IsUsable :
    (p : Plan) (d : Fields) (ts : List String) → IsUsable p (reflection_of p d ts)
unfolding reflection_of has_failures
reflection_of-IsUsable p d ts = record {
  honest = λ e. ground arith;
  useful = λ e. ground (arith, failed-some p.steps);
}

reflect_offline-IsUsable : (p : Plan) → IsUsable p (reflect_offline p)
unfolding reflect_offline has_failures
reflect_offline-IsUsable p = record {
  honest = λ e. ground arith;
  useful = λ e. ground (arith, failed-some p.steps);
}

-- A JSON value that Python cannot iterate over, and that `or []` does not replace: a number that is
-- not 0, or `True`.
abbrev pub IsNoSequence : Value → Type 0
IsNoSequence (bool true) = Unit
IsNoSequence (int (pos (suc n))) = Unit
IsNoSequence (int (negsuc n)) = Unit
IsNoSequence v = ⊥

pub IsGiven : Plan → Option Reflection → Type 0
IsGiven p o = (r : Reflection) × (o ≡ some r) × IsUsable p r

-- the titles of a decision
abbrev titles_in : Fields → Value
titles_in d = or_else (get "replan_titles" d) null

-- What `reflect` gives for the decision of a reply: it raises a `TypeError` exactly where the titles
-- are no sequence, and else returns a reflection that is usable.
abbrev pub IsReturned : Plan → Option Fields → Option Reflection → Type 0
IsReturned p none o = IsGiven p o
IsReturned p (some d) o =
    (IsNoSequence (titles_in d) × (o ≡ none)) ⊎ ((¬ IsNoSequence (titles_in d)) × IsGiven p o)

iterated-none : (v : Value) → iterated v ≡ none → IsNoSequence v
unfolding iterated truthy
iterated-none null e = ground arith
iterated-none (bool true) e = tt
iterated-none (bool false) e = ground arith
iterated-none (int (pos zero)) e = ground arith
iterated-none (int (pos (suc n))) e = tt
iterated-none (int (negsuc n)) e = tt
iterated-none (string s) e = ground arith
iterated-none (list vs) e = ground arith
iterated-none (dict fs) e = ground arith

iterated-some : (v : Value) (ts : List String) → iterated v ≡ some ts → ¬ IsNoSequence v
unfolding iterated truthy
iterated-some null ts e h = h
iterated-some (bool true) ts e h = ground arith
iterated-some (bool false) ts e h = h
iterated-some (int (pos zero)) ts e h = h
iterated-some (int (pos (suc n))) ts e h = ground arith
iterated-some (int (negsuc n)) ts e h = ground arith
iterated-some (string s) ts e h = h
iterated-some (list vs) ts e h = h
iterated-some (dict fs) ts e h = h

reflected-IsReturned :
    (p : Plan) (d : Fields) (o : Option (List String))
    → iterated (titles_in d) ≡ o
    → IsReturned p (some d) (reflected p d o)
unfolding IsGiven
reflected-IsReturned p d none e = inl (iterated-none (titles_in d) e, refl)
reflected-IsReturned p d (some ts) e =
    inr (
      iterated-some (titles_in d) ts e,
      (reflection_of p d ts, refl, reflection_of-IsUsable p d ts),
    )

decided-IsReturned :
    (p : Plan) (o : Option Fields)
    → IsReturned p o (elim o as (λ _. Option Reflection) [
      | none ↦ some (reflect_offline p)
      | some d ↦ reflected p d (iterated (titles_in d))
    ])
decided-IsReturned p none = unfold IsGiven in (reflect_offline p, refl, reflect_offline-IsUsable p)
decided-IsReturned p (some d) = reflected-IsReturned p d (iterated (titles_in d)) refl

-- Whatever the model replies: where the reply is a decision whose titles are a number that is not 0
-- or `True`, `reflect` raises; with any other reply it returns a reflection that never finds a plan
-- with a failed step satisfactory, and that then has at least one step to replan.
pub reflect-IsReturned :
    (loads : String → Option Value) (p : Plan) (text : String)
    → IsReturned p (decided (parsed_reply loads text)) (reflect loads p text)
unfolding reflect
reflect-IsReturned loads p text = decided-IsReturned p (decided (parsed_reply loads text))
