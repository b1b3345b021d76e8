-- ===== src/Orchestrator/Execution.antt =====
-- What the executor of davinci/caspar_executor.py sends.
use davinci_agent.Prelude.{
  String, ◌<>◌, ◌≡◌, refl, true, false, Option, none, some, List, [], ◌∷◌, ◌++◌, Option-cases, inl,
  inr, ◌⊎◌, arith,
}
use davinci_agent.Prelude.Dict.{lookup}
use davinci_agent.Prelude.Json.{dumps}
use davinci_agent.Prelude.Value.{Value, null, bool, int, string, list, dict, Fields, get}
use davinci_agent.Permissions.Defs.{ToolAction}
use davinci_agent.Registry.Defs.{ToolDescriptor}
use davinci_agent.Engine.Defs.{Result, ToolResult}
use davinci_agent.Orchestrator.Defs.{ToolCapability, fields, object, signal_fn}
use davinci_agent.Orchestrator.Groups.{key_of}
use davinci_agent.Orchestrator.Client.{Failure, answer, try_signal_tool}
use davinci_agent.Orchestrator.Names.{IsNamed, index_entry, index_names-none}
use davinci_agent.Orchestrator.Executor.{
  index_names, category_for, function_for, task_of, result_of, signalled, executed, execute,
}

-- the first category of a capability, or else the action's
abbrev pub IsCategory : ToolCapability → ToolAction → Value → Type 0
IsCategory capability action category =
    ((capability.categories ≡ []) × (category ≡ string action.category))
    ⊎ ((others : List Value) × (capability.categories ≡ category ∷ others))

abbrev pub HasNone : Fields → Value → Type 0
HasNone functions (string s) = get s functions ≡ none
HasNone functions (list vs) = ⊥
HasNone functions (dict fs) = ⊥
HasNone functions v = Unit

-- the function of a category, or else `invoke`
abbrev pub IsFunction : ToolCapability → Value → Value → Type 0
IsFunction capability category function_name =
    ((s : String) × (category ≡ string s) × (get s capability.functions ≡ some function_name))
    ⊎ (HasNone capability.functions category × (function_name ≡ string "invoke"))

-- a value that is no key of a dict
abbrev pub IsUnhashable : Value → Type 0
IsUnhashable (list vs) = Unit
IsUnhashable (dict fs) = Unit
IsUnhashable v = ⊥

-- the payload of the signal of a function to the machine of a capability
abbrev pub signal_to : ToolCapability → Value → Value → String → String → Value
signal_to capability category function_name task user_id = object (
    ("op", string signal_fn)
    ∷ ("key", string signal_fn)
    ∷ (
      "input",
      dict (
          fields (
            ("type", string "machine")
            ∷ ("machineId", string capability.container.machine_id)
            ∷ ("userId", string user_id)
            ∷ (
              "data",
              string (
                  dumps (
                    object (
                      ("toolId", string capability.tool_id)
                      ∷ ("machineId", string capability.container.machine_id)
                      ∷ ("containerName", string capability.container.container_name)
                      ∷ ("category", category)
                      ∷ ("function", function_name)
                      ∷ ("task", string task)
                      ∷ ("expectedResponsePoint", string capability.response_point)
                      ∷ []))),
            )
            ∷ [])),
    )
    ∷ [])

abbrev failed : String → Result ToolResult
failed error = Result.ok (record { succeeded = false; output = null; error = error })

abbrev IsSuccess : Result ToolResult → Type 0
IsSuccess (Result.ok r) = (r.succeeded ≡ true) × (r.error ≡ "")
IsSuccess (Result.raised e) = ⊥

module _ (fails : Failure) (user_id : String) (tool : ToolDescriptor) (action : ToolAction)
    (sent : List Value) where
  -- a capability was signalled, and the result says whether the transport raised
  pub record IsSignalled (capability : ToolCapability) (outcome : Result ToolResult × List Value)
      : Type 0 where
    pub category : Value
    pub function_name : Value
    pub of_capability : IsCategory capability action category
    pub of_category : IsFunction capability category function_name
    pub given :
        outcome.1
        ≡ sent ++ signal_to capability category function_name (task_of action) user_id ∷ []
    pub answered :
        let failure =
          fails sent (signal_to capability category function_name (task_of action) user_id) in
        ((failure ≡ none) × IsSuccess outcome.0)
        ⊎ ((error : String) × (failure ≡ some error) × (outcome.0 ≡ failed error))

  -- nothing was given to the transport, since the category is no key
  abbrev pub IsRefused : ToolCapability → Result ToolResult × List Value → Type 0
  IsRefused capability outcome =
      (outcome.1 ≡ sent)
      × ((category : Value) × IsCategory capability action category × IsUnhashable category)
      × ((error : String) × (outcome.0 ≡ Result.raised error))

  -- no capability has the name
  abbrev pub IsUnknown : List ToolCapability → Result ToolResult × List Value → Type 0
  IsUnknown caps outcome =
      ((c : ToolCapability) → ¬ IsNamed caps tool.name c)
      × (outcome.1 ≡ sent)
      × (outcome.0 ≡ failed ("unknown Caspar tool " <> tool.name))

  abbrev pub IsExecuted : List ToolCapability → Result ToolResult × List Value → Type 0
  IsExecuted caps outcome =
      IsUnknown caps outcome
      ⊎ ((capability : ToolCapability) × IsNamed caps tool.name capability
          × (IsRefused capability outcome ⊎ IsSignalled capability outcome))

  category_for-IsCategory :
      (capability : ToolCapability) → IsCategory capability action (category_for capability action)
  category_for-IsCategory capability = categories_cases capability.categories
    where
      categories_cases :
          (cs : List Value)
          → let category : Value = elim cs [ [] ↦ string action.category | c ∷ cs ↦ c ] in
            ((cs ≡ []) × (category ≡ string action.category))
            ⊎ ((others : List Value) × (cs ≡ category ∷ others))
      categories_cases [] = inl (refl, refl)
      categories_cases (c ∷ cs) = inr (cs, refl)

  function_for-none :
      (category : Value) (capability : ToolCapability)
      → function_for category capability ≡ none
      → IsUnhashable category
  unfolding key_of
  function_for-none null capability e = ground arith
  function_for-none (bool true) capability e = ground arith
  function_for-none (bool false) capability e = ground arith
  function_for-none (int n) capability e = ground arith
  function_for-none (string s) capability e = ground arith
  function_for-none (list vs) capability e = tt
  function_for-none (dict fs) capability e = tt

  function_for-IsFunction :
      (category : Value) (capability : ToolCapability) (f : Value)
      → function_for category capability ≡ some f
      → IsFunction capability category f
  unfolding key_of
  function_for-IsFunction null capability f e = inr (tt, ground arith)
  function_for-IsFunction (bool true) capability f e = inr (tt, ground arith)
  function_for-IsFunction (bool false) capability f e = inr (tt, ground arith)
  function_for-IsFunction (int n) capability f e = inr (tt, ground arith)
  function_for-IsFunction (string s) capability f e =
      elim (Option-cases (get s capability.functions)) [
        | inl new ↦ inr (new, ground arith)
        | inr (g, known) ↦ inl (s, refl, ground arith)
      ]
  function_for-IsFunction (list vs) capability f e = ground arith
  function_for-IsFunction (dict fs) capability f e = ground arith

  result_of-answer :
      (capability : ToolCapability) (category f : Value) (dispatch : Fields) (o : Option String)
      → let result = Result.ok (result_of tool capability category f (answer dispatch o)) in
        ((o ≡ none) × IsSuccess result)
        ⊎ ((error : String) × (o ≡ some error) × (result ≡ failed error))
  unfolding result_of
  result_of-answer capability category f dispatch none = inl (refl, (refl, refl))
  result_of-answer capability category f dispatch (some error) = inr (error, refl, refl)

  -- what `signalled` gives, by what the transport does
  signalled-cases :
      (capability : ToolCapability) (o : Option Value)
      → function_for (category_for capability action) capability ≡ o
      → let outcome =
          signalled fails user_id tool capability
            (category_for capability action)
            (task_of action)
            o
            sent in
        IsRefused capability outcome ⊎ IsSignalled capability outcome
  unfolding signalled try_signal_tool davinci_agent.Orchestrator.Client.signal_tool
      davinci_agent.Orchestrator.Client.host_call
  signalled-cases capability none e =
      let category = category_for capability action in
      inl (
        refl,
        (category, category_for-IsCategory capability, function_for-none category capability e),
        (_, refl),
      )
  signalled-cases capability (some f) e =
      let category = category_for capability action in
      let payload = signal_to capability category f (task_of action) user_id in
      inr (record {
        category = category;
        function_name = f;
        of_capability = category_for-IsCategory capability;
        of_category = function_for-IsFunction category capability f e;
        given = refl;
        answered = result_of-answer capability category f _ (fails sent payload);
      })

  executed-IsExecuted :
      (caps : List ToolCapability) (o : Option ToolCapability)
      → lookup tool.name (index_names caps []) ≡ o
      → IsExecuted caps (executed fails user_id tool action o sent)
  unfolding executed
  executed-IsExecuted caps none e = inl ((index_names-none caps [] tool.name e).0, refl, refl)
  executed-IsExecuted caps (some c) e =
      inr (c, index_entry caps tool.name c e, signalled-cases c _ refl)

  -- A tool whose name is no capability's fails and nothing is sent. Otherwise a capability with that
  -- id or registered name is taken: where its category is no key of a dict the executor raises;
  -- else it gives one signal to the transport, to the capability's machine and with the task, its
  -- first category (the action's if it has none) and the category's function (`invoke` if it has
  -- none), and succeeds if the transport does not raise, and else fails with the transport's error.
  pub execute-IsExecuted :
      (caps : List ToolCapability)
      → IsExecuted caps (execute fails user_id tool (index_names caps []) action sent)
  unfolding execute
  execute-IsExecuted caps = executed-IsExecuted caps (lookup tool.name (index_names caps [])) refl
