-- ===== src/Orchestrator/Plans.antt =====
-- What `DavinciPlanner.plan` (caspar_orchestrator.py) plans.
use mathlib.Core.List.{Memᴰ}
use davinci_agent.Prelude.{
  ◌≤◌, String, ◌≡◌, refl, sym, subst, Bool, true, false, ◌||◌, some, List, [], ◌∷◌, All, All-map,
  any, ◌==◌, arith,
}
use davinci_agent.Orchestrator.Defs.{ToolCapability, ActionRequest, ExecutionAction, ExecutionPlan}
use davinci_agent.Orchestrator.Groups.{Groups, members, key_of, group, group_all, add_to}
use davinci_agent.Prelude.Dict.{lookup}
use davinci_agent.Prelude.Value.{Value}
use davinci_agent.Orchestrator.Planner.{
  Vms, list_tools, by_risk, index_tools, category_key, signal_action, Chosen, choose, choose_all,
  is_filled, plan_of, plan,
}
use davinci_agent.Orchestrator.Choice.{
  serves, rank, has_key, options, members-index_tools, options-All, All-options, by_risk-All, IsLed,
  by_risk-IsLed,
}

-- The tool of an action: it is registered, it serves the category, and no registered tool that
-- serves it is of less risk.
pub record IsChoice (tools : List ToolCapability) (category : String) (t : ToolCapability)
    : Type 0 where
  pub listed : Memᴰ t tools
  pub able : serves category t ≡ true
  pub least : All (λ u. serves category u ≡ true → rank t ≤ rank u) tools

-- How a plan follows from the categories: an action for each that a tool serves, in their order,
-- the others missing, and whether a tool of high risk is among those chosen.
pub data Plans (tools : List ToolCapability) (task : String)
    : List String → List ExecutionAction → List String → Bool → Type 0 where
  planned : Plans tools task [] [] [] false
  served :
      (category : String) (t : ToolCapability)
      → IsChoice tools category t
      → {categories : List String} {actions : List ExecutionAction} {missing : List String}
        {high : Bool}
      → Plans tools task categories actions missing high
      → Plans tools task
          (category ∷ categories)
          (signal_action task t category ∷ actions)
          missing
          (t.risk_level == "high" || high)
  unserved :
      (category : String)
      → All (λ t. serves category t ≡ false) tools
      → {categories : List String} {actions : List ExecutionAction} {missing : List String}
        {high : Bool}
      → Plans tools task categories actions missing high
      → Plans tools task (category ∷ categories) actions (category ∷ missing) high

All-self : {A : Type 0} (xs : List A) → All (λ x. Memᴰ x xs) xs
All-self [] = tt
All-self (x ∷ xs) = (Memᴰ.head refl, All-map (λ y m. Memᴰ.tail m) xs (All-self xs))

module _ (tools : List ToolCapability) (task : String) where
  -- registered, and of the category
  abbrev IsAble : String → ToolCapability → Type 0
  IsAble category t = Memᴰ t tools × (serves category t ≡ true)

  options-IsAble :
      (category : String) → All (IsAble category) (options (category_key category) tools)
  options-IsAble category =
      options-All (IsAble category) (category_key category) tools
        (All-map (λ t m e. (m, e)) tools (All-self tools))

  choose-Plans :
      (category : String) (l : List ToolCapability)
      → IsLed (options (category_key category) tools) l
      → All (IsAble category) l
      → (rest : Chosen) {categories : List String}
      → Plans tools task categories rest.actions rest.missing rest.high_risk
      → Plans tools task
          (category ∷ categories)
          (choose task category l rest).actions
          (choose task category l rest).missing
          (choose task category l rest).high_risk
  unfolding choose
  choose-Plans category [] led able rest plans =
      let k = category_key category in
      let nobody : All (λ t. any (has_key k) t.categories ≡ true → ⊥) tools =
        All-options (λ t. ⊥) k tools (subst (All (λ t. ⊥)) (sym led) tt) in
      unserved category
        (All-map (λ t (no : serves category t ≡ true → ⊥). ground (arith, no)) tools nobody) plans
  choose-Plans category (t ∷ l) led able rest plans =
      served category t
        (record {
          listed = able.0.0;
          able = able.0.1;
          least = All-options (λ u. rank t ≤ rank u) (category_key category) tools led;
        })
        plans

  choose_all-Plans :
      (index : Groups ToolCapability)
      → ((k : String) → members k index ≡ options k tools)
      → (categories : List String)
      → Plans tools task categories
          (choose_all task index categories).actions
          (choose_all task index categories).missing
          (choose_all task index categories).high_risk
  unfolding choose_all
  choose_all-Plans index h [] = planned
  choose_all-Plans index h (category ∷ categories) =
      let e = sym (h (category_key category)) in
      choose-Plans category (by_risk (members (category_key category) index))
        (subst (λ l. IsLed (options (category_key category) tools) (by_risk l)) e
          (by_risk-IsLed (options (category_key category) tools)))
        (subst (λ l. All (IsAble category) (by_risk l)) e
          (by_risk-All (IsAble category) (options (category_key category) tools)
            (options-IsAble category)))
        (choose_all task index categories) (choose_all-Plans index h categories)

-- how a plan stands to the request
pub record IsPlanned (req : ActionRequest) (tools : List ToolCapability) (p : ExecutionPlan)
    : Type 0 where
  pub missing : List String
  pub high_risk : Bool
  pub follows : Plans tools req.task req.required_categories p.actions missing high_risk
  pub reviewed :
      p.human_review_required ≡ (high_risk || is_filled missing || req.risk_tolerance == "low")

-- the value can be a key
abbrev pub IsKey : Value → Type 0
IsKey v = (k : String) × (key_of v ≡ some k)

group_all-some :
    (vs : List Value) (t : ToolCapability) (g : Groups ToolCapability)
    → All IsKey vs
    → (h : Groups ToolCapability) × (group_all vs t g ≡ some h)
unfolding group_all group
group_all-some [] t g keys = (g, refl)
group_all-some (v ∷ vs) t g ((k, known), keys) =
    let (h, e) = group_all-some vs t (add_to k v t g) keys in (h, ground arith)

index_tools-some :
    (ts : List ToolCapability) (g : Groups ToolCapability)
    → All (λ t. All IsKey t.categories) ts
    → (h : Groups ToolCapability) × (index_tools ts g ≡ some h)
unfolding index_tools
index_tools-some [] g keys = (g, refl)
index_tools-some (t ∷ ts) g keys =
    let (h, e) = group_all-some t.categories t g keys.0 in
    let (i, f) = index_tools-some ts h keys.1 in (i, ground arith)

-- Where every category of a registered tool can be a key, there is a plan. It has, in the order of
-- the required categories, one signal for each category that a registered tool serves, to a tool of
-- the least risk among those; the other categories are missing. A human is asked exactly if a chosen
-- tool is of high risk, a category is missing or the request tolerates only a low risk.
pub plan-IsPlanned :
    (req : ActionRequest) (vms : Vms)
    → All (λ t. All IsKey t.categories) (list_tools vms)
    → (p : ExecutionPlan) × (plan req vms ≡ some p) × IsPlanned req (list_tools vms) p
unfolding plan plan_of members lookup
plan-IsPlanned req vms keys =
    let (index, known) = index_tools-some (list_tools vms) [] keys in
    let chosen = choose_all req.task index req.required_categories in
    (
      plan_of req chosen,
      ground arith,
      record {
        missing = chosen.missing;
        high_risk = chosen.high_risk;
        follows =
            choose_all-Plans (list_tools vms) req.task index
              (λ k. members-index_tools k (list_tools vms) [] index known) req.required_categories;
        reviewed = refl;
      },
    )
