-- ===== src/Orchestrator/Machines.antt =====
-- The machines that a plan and the payloads sent (caspar_orchestrator.py) name.
use davinci_agent.Prelude.{
  String, ◌≡◌, refl, sym, ap, ◌∙◌, Bool, true, false, Option, none, some, List, [], ◌∷◌, ◌++◌,
  append-nil, append_assoc, find?, any, All, ◌==◌, eq_iff, arith, Bool-cases, inl, inr,
  if◌then◌else◌,
}
use davinci_agent.Prelude.Dict.{Dict, lookup, has, insert, values}
use davinci_agent.Prelude.Value.{Value, string, dict, Fields, get}
use davinci_agent.Orchestrator.Defs.{ExecutionAction, WorkerTemplate, WorkerInstance}

module _ {A : Type 0} (f : A → List String) where
  abbrev pub gather : List A → List String
  gather [] = []
  gather (x ∷ xs) = f x ++ gather xs

  pub gather-append : (xs ys : List A) → gather (xs ++ ys) ≡ gather xs ++ gather ys
  gather-append [] ys = refl
  gather-append (x ∷ xs) ys =
      ap (λ l. f x ++ l) (gather-append xs ys) ∙ sym (append_assoc (f x) (gather xs) (gather ys))

  pub gather-snoc : (xs : List A) (x : A) → gather (xs ++ x ∷ []) ≡ gather xs ++ f x
  gather-snoc xs x = gather-append xs (x ∷ []) ∙ ap (λ l. gather xs ++ l) (append-nil (f x))

abbrev text_of : Option Value → List String
text_of (some (string s)) = s ∷ []
text_of _ = []

-- the machine that an action of a phase names under a key
abbrev pub named : String → String → ExecutionAction → List String
named phase key a = if a.phase == phase then text_of (get key a.input_payload) else []

-- the machines of the actions that provision
abbrev pub provisioned : List ExecutionAction → List String
provisioned = gather (named "provision_worker" "name")

-- the machines of the actions that clean up
abbrev pub cleaned_up : List ExecutionAction → List String
cleaned_up = gather (named "cleanup_worker" "machineId")

-- the categories of the actions that delegate
abbrev pub delegated : List ExecutionAction → List String
delegated = gather (λ a. if a.phase == "signal_request" then a.category ∷ [] else [])

abbrev name_in : Option Value → List String
name_in (some (dict m)) = text_of (get "name" m)
name_in _ = []

abbrev run_in : Option Value → Fields → List String
run_in (some (string op)) m = if op == "runVm" then name_in (get "input" m) else []
run_in _ m = []

abbrev pub run_of : Value → List String
run_of (dict m) = run_in (get "op" m) m
run_of v = []

-- the machines that `runVm` was sent for
abbrev pub started : List Value → List String
started = gather run_of

abbrev pub machines : Dict WorkerInstance → List String
machines [] = []
machines ((role, w) ∷ d) = w.machine_id ∷ machines d

-- each template is kept under its role
abbrev pub IsKeyed : Dict WorkerTemplate → Type 0
IsKeyed = All (λ (e : String × WorkerTemplate). e.0 ≡ e.1.role)

pub insert-new :
    (k : String) (w : WorkerInstance) (d : Dict WorkerInstance)
    → has k d ≡ false
    → insert k w d ≡ d ++ (k, w) ∷ []
unfolding insert has
insert-new k w [] h = refl
insert-new k w ((j, u) ∷ d) h = ground (arith, insert-new k w d)

pub lookup-has :
    (k : String) (d : Dict WorkerInstance)
    → has k d ≡ true
    → (w : WorkerInstance) × (lookup k d ≡ some w)
unfolding lookup has
lookup-has k [] h = absurd (ground arith)
lookup-has k ((j, u) ∷ d) h = elim (Bool-cases (j == k)) [
  | inl same ↦ (u, ground arith)
  | inr other ↦ let (w, e) = lookup-has k d (ground arith) in (w, ground arith)
]

pub machines-snoc :
    (d : Dict WorkerInstance) (k : String) (w : WorkerInstance)
    → machines (d ++ (k, w) ∷ []) ≡ machines d ++ w.machine_id ∷ []
machines-snoc [] k w = refl
machines-snoc ((j, u) ∷ d) k w = ap (λ l. u.machine_id ∷ l) (machines-snoc d k w)

-- a template that is found is found again by its role
pub find-keyed :
    (p : WorkerTemplate → Bool) (d : Dict WorkerTemplate) (t : WorkerTemplate)
    → IsKeyed d
    → find? p (values d) ≡ some t
    → (u : WorkerTemplate) × (lookup t.role d ≡ some u)
unfolding lookup
find-keyed p [] t h e = absurd (ground arith)
find-keyed p ((k, u) ∷ d) t h e = elim (Bool-cases (k == t.role)) [
  | inl same ↦ (u, ground arith)
  | inr other ↦ elim (Bool-cases (p u)) [
    | inl passes ↦
        let found : some u ≡ some t = ground arith in
        let is_t : u ≡ t = ground arith in
        let role : k ≡ t.role = h.0 ∙ ap (λ (x : WorkerTemplate). x.role) is_t in
        absurd (ground (arith, eq_iff k t.role))
    | inr fails ↦ let (w, found) = find-keyed p d t h.1 (ground arith) in (w, ground arith)
  ]
]

pub find?-any :
    {A : Type 0} (p : A → Bool) (xs : List A) (x : A) → find? p xs ≡ some x → any p xs ≡ true
find?-any p [] x e = absurd (ground arith)
find?-any p (y ∷ ys) x e = ground (arith, find?-any p ys x)

pub find?-none : {A : Type 0} (p : A → Bool) (xs : List A) → find? p xs ≡ none → any p xs ≡ false
find?-none p [] e = refl
find?-none p (y ∷ ys) e = ground (arith, find?-none p ys)
