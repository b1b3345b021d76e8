-- ===== src/Orchestrator/Choice.antt =====
-- Which tools `DavinciPlanner.plan` (caspar_orchestrator.py) signals.
use davinci_agent.Prelude.{
  ℕ, ◌≤◌, String, ◌≡◌, refl, sym, ap, ◌∙◌, subst, Bool, true, false, ◌||◌, none, some, List, [],
  ◌∷◌, ◌++◌, append_assoc, append-nil, All, All-append, All-map, any, ◌==◌, arith, Option-cases,
  Bool-cases, inl, inr, if◌then◌else◌,
}
use davinci_agent.Prelude.Value.{Value}
use davinci_agent.Orchestrator.Defs.{ToolCapability}
use davinci_agent.Orchestrator.Groups.{
  Groups, key_of, members, group_all, occurrences, members-group_all,
}
use davinci_agent.Orchestrator.Planner.{
  risk_rank, comes_first, place, by_risk, index_tools, category_key,
}

-- the key of a value is this one
abbrev pub has_key : String → Value → Bool
has_key k v = elim (key_of v) [ none ↦ false | some j ↦ j == k ]

-- the tool has the category, or a value that Python takes for it
abbrev pub serves : String → ToolCapability → Bool
serves category t = any (has_key (category_key category)) t.categories

abbrev pub rank : ToolCapability → ℕ
rank t = risk_rank t.risk_level

All-split : {A : Type 0} (P : A → Type 0) (xs ys : List A) → All P (xs ++ ys) → All P xs × All P ys
All-split P [] ys h = (tt, h)
All-split P (x ∷ xs) ys h = let rest = All-split P xs ys h.1 in ((h.0, rest.0), rest.1)

-- the tools of a key, one by one
abbrev pub options : String → List ToolCapability → List ToolCapability
options k [] = []
options k (t ∷ ts) = occurrences k t.categories t ++ options k ts

pub members-index_tools :
    (k : String) (ts : List ToolCapability) (g h : Groups ToolCapability)
    → index_tools ts g ≡ some h
    → members k h ≡ members k g ++ options k ts
unfolding index_tools
members-index_tools k [] g h e = ground (arith, append-nil (members k g))
members-index_tools k (t ∷ ts) g h e = elim (Option-cases (group_all t.categories t g)) [
  | inl fails ↦ absurd (ground arith)
  | inr (i, e') ↦
      let rest = members-index_tools k ts i h (ground arith) in
      rest
      ∙ ap (λ l. l ++ options k ts) (members-group_all k t.categories t g i e')
      ∙ append_assoc (members k g) (occurrences k t.categories t) (options k ts)
]

occurrences-step :
    (k : String) (v : Value) (vs : List Value) (t : ToolCapability)
    → occurrences k (v ∷ vs) t
      ≡ (if has_key k v then t ∷ occurrences k vs t else occurrences k vs t)
occurrences-step k v vs t = elim (Option-cases (key_of v)) [
  | inl unhashable ↦ ground arith
  | inr (j, known) ↦ ground arith
]

module _ (P : ToolCapability → Type 0) (k : String) where
  grow :
      (b : Bool) (t : ToolCapability) (rest : List ToolCapability)
      → (b ≡ true → P t)
      → All P rest
      → All P (if b then t ∷ rest else rest)
  grow true t rest f h = (f refl, h)
  grow false t rest f h = h

  shrink :
      (b c : Bool) (t : ToolCapability) (rest : List ToolCapability)
      → (All P rest → c ≡ true → P t)
      → All P (if b then t ∷ rest else rest)
      → (b || c) ≡ true
      → P t
  shrink true c t rest f h e = h.0
  shrink false c t rest f h e = f h e

  occurrences-All :
      (vs : List Value) (t : ToolCapability)
      → (any (has_key k) vs ≡ true → P t)
      → All P (occurrences k vs t)
  occurrences-All [] t h = tt
  occurrences-All (v ∷ vs) t h = subst (All P) (sym (occurrences-step k v vs t)) (
      grow (has_key k v) t (occurrences k vs t) (λ e. h (ground arith))
        (occurrences-All vs t (λ e. h (ground arith))))

  All-occurrences :
      (vs : List Value) (t : ToolCapability)
      → All P (occurrences k vs t)
      → any (has_key k) vs ≡ true
      → P t
  All-occurrences [] t h e = absurd (ground arith)
  All-occurrences (v ∷ vs) t h e =
      shrink (has_key k v) (any (has_key k) vs) t (occurrences k vs t) (All-occurrences vs t)
        (subst (All P) (occurrences-step k v vs t) h) e

  pub options-All :
      (ts : List ToolCapability)
      → All (λ t. any (has_key k) t.categories ≡ true → P t) ts
      → All P (options k ts)
  options-All [] h = tt
  options-All (t ∷ ts) h =
      All-append P (occurrences k t.categories t) (options k ts)
        (occurrences-All t.categories t h.0) (options-All ts h.1)

  pub All-options :
      (ts : List ToolCapability)
      → All P (options k ts)
      → All (λ t. any (has_key k) t.categories ≡ true → P t) ts
  All-options [] h = tt
  All-options (t ∷ ts) h =
      let both = All-split P (occurrences k t.categories t) (options k ts) h in
      (All-occurrences t.categories t both.0, All-options ts both.1)

place-All :
    (P : ToolCapability → Type 0) (t : ToolCapability) (us : List ToolCapability)
    → P t
    → All P us
    → All P (place t us)
unfolding place
place-All P t [] h hs = (h, tt)
place-All P t (u ∷ us) h hs = elim (Bool-cases (comes_first t u)) [
  | inl yes_ ↦ rw yes_ (h, hs)
  | inr no_ ↦ rw no_ (hs.0, place-All P t us h hs.1)
]

pub by_risk-All :
    (P : ToolCapability → Type 0) (ts : List ToolCapability) → All P ts → All P (by_risk ts)
unfolding by_risk
by_risk-All P [] h = tt
by_risk-All P (t ∷ ts) h = place-All P t (by_risk ts) h.0 (by_risk-All P ts h.1)

comes_first-true : (t u : ToolCapability) → comes_first t u ≡ true → rank t ≤ rank u
unfolding comes_first
comes_first-true t u e = ground arith

comes_first-false : (t u : ToolCapability) → comes_first t u ≡ false → rank u ≤ rank t
unfolding comes_first
comes_first-false t u e = ground arith

-- The first of a list is of the least risk of these tools.
abbrev pub IsLed : List ToolCapability → List ToolCapability → Type 0
IsLed ts [] = ts ≡ []
IsLed ts (h ∷ l) = All (λ u. rank h ≤ rank u) ts

place-IsLed :
    (t : ToolCapability) (ts l : List ToolCapability) → IsLed ts l → IsLed (t ∷ ts) (place t l)
unfolding place
place-IsLed t ts [] h = subst (λ l. All (λ u. rank t ≤ rank u) (t ∷ l)) (sym h) (omega arith, tt)
place-IsLed t ts (h ∷ l) led = elim (Bool-cases (comes_first t h)) [
  | inl yes_ ↦
      let le = comes_first-true t h yes_ in
      rw yes_ (omega arith, All-map (λ u m. omega arith) ts led)
  | inr no_ ↦ rw no_ (comes_first-false t h no_, led)
]

pub by_risk-IsLed : (ts : List ToolCapability) → IsLed ts (by_risk ts)
unfolding by_risk
by_risk-IsLed [] = refl
by_risk-IsLed (t ∷ ts) = place-IsLed t ts (by_risk ts) (by_risk-IsLed ts)
