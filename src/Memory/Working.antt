-- ===== src/Memory/Working.antt =====
-- `WorkingMemory` of davinci/memory.py.
use davinci_agent.Prelude.{
  ℕ, String, Option, List, [], ◌∷◌, ◌++◌, ltb, length, first_only, from_end_pred, if◌then◌else◌,
}
use davinci_agent.Prelude.Dict.{Dict, lookup, insert}
use davinci_agent.Prelude.Value.{Value}

pub record Item : Type 0 where
  pub role : String
  pub content : Value

pub record WorkingMemory : Type 0 where
  pub max_items : ℕ
  pub items : List Item
  pub facts : Dict Value

abbrev pub new_memory : ℕ → WorkingMemory
new_memory max_items = record { max_items = max_items; items = []; facts = [] }

-- the oldest item and the most recent ones
unfoldable pub trim : {A : Type 0} → ℕ → List A → List A
trim max_items items =
    if ltb max_items (length items)
    then first_only items ++ from_end_pred max_items items
    else items

-- `WorkingMemory.remember`
unfoldable pub remember : String → Value → WorkingMemory → WorkingMemory
unfolding trim
remember role content m = record m {
  items = trim m.max_items (m.items ++ record { role = role; content = content } ∷ []);
}

unfoldable pub set_fact : String → Value → WorkingMemory → WorkingMemory
set_fact key value m = record m { facts = insert key value m.facts }

unfoldable pub get_fact : String → WorkingMemory → Option Value
get_fact key m = lookup key m.facts
