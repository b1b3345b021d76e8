-- ===== src/Prelude/Value.antt =====
-- The values of Python that a JSON text can hold, less the floats. A `dict` keeps its keys in the
-- order of insertion.
use Prim.Native.Nat.{zero}
use Prim.Native.String.{String, ◌++◌}
use mathlib.Core.Bool.{Bool, true, false, not}
use mathlib.Core.Option.{Option, none, some}
use mathlib.Core.List.{List, [], ◌∷◌}
use text.Mathlib.Text.{◌==◌}
use davinci_agent.Prelude.Tests.{if◌then◌else◌}
use davinci_agent.Prelude.Int
use davinci_agent.Prelude.Int.{ℤ, pos, negsuc}
use davinci_agent.Prelude.Text

mutual
  pub data Value : Type 0 where
    null : Value
    bool : Bool → Value
    int : ℤ → Value
    string : String → Value
    list : Items → Value
    dict : Fields → Value

  pub data Items : Type 0 where
    nil : Items
    cons : Value → Items → Items

  pub data Fields : Type 0 where
    end : Fields
    field : String → Value → Fields → Fields

-- bool(v)
unfoldable pub truthy : Value → Bool
truthy null = false
truthy (bool b) = b
truthy (int (pos zero)) = false
truthy (int _) = true
truthy (string s) = not (s == "")
truthy (list nil) = false
truthy (list _) = true
truthy (dict end) = false
truthy (dict _) = true

unfoldable mutual
  -- repr(v)
  pub repr : Value → String
  repr null = "None"
  repr (bool true) = "True"
  repr (bool false) = "False"
  repr (int n) = Int.show n
  repr (string s) = Text.repr s
  repr (list nil) = "[]"
  repr (list (cons v vs)) = "[" ++ repr v ++ repr_items vs ++ "]"
  repr (dict end) = "{}"
  repr (dict (field k v fs)) = "{" ++ Text.repr k ++ ": " ++ repr v ++ repr_fields fs ++ "}"

  pub repr_items : Items → String
  repr_items nil = ""
  repr_items (cons v vs) = ", " ++ repr v ++ repr_items vs

  pub repr_fields : Fields → String
  repr_fields end = ""
  repr_fields (field k v fs) = ", " ++ Text.repr k ++ ": " ++ repr v ++ repr_fields fs

-- str(v)
unfoldable pub str : Value → String
str (string s) = s
str v = repr v

-- d.get(key)
unfoldable pub get : String → Fields → Option Value
get key end = none
get key (field k v fs) = if k == key then some v else get key fs

-- d[k] = v
unfoldable pub put : String → Value → Fields → Fields
put k v end = field k v end
put k v (field j w fs) = if j == k then field k v fs else field j w (put k v fs)

-- {**d, **e}
unfoldable pub merge : Fields → Fields → Fields
unfolding put
merge d end = d
merge d (field k v e) = merge (put k v d) e

-- {k: v for k, v in d.items() if keep(k)}
unfoldable pub only : (String → Bool) → Fields → Fields
only keep end = end
only keep (field k v fs) = let rest = only keep fs in if keep k then field k v rest else rest

-- `x or y`
abbrev pub or_value : Option Value → Value → Value
or_value none d = d
or_value (some v) d = if truthy v then v else d

-- a dict written down
abbrev pub fields : List (String × Value) → Fields
fields [] = end
fields ((k, v) ∷ fs) = field k v (fields fs)

abbrev pub object : List (String × Value) → Value
object fs = dict (fields fs)
