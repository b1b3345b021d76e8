-- ===== src/Engine/Defs.antt =====
-- The data of davinci/engine.py, and what a run is given from outside.
use davinci_agent.Prelude.{
  ℕ, ◌/◌, max, String, ◌<>◌, count, Bool, Option, none, some, List, [], ◌∷◌, map, ◌==◌,
  if◌then◌else◌,
}
use Prim.Native.Nat.{Ordering}
use Prim.Native.String.{compare}
use davinci_agent.Prelude.Dict.{Dict}
use davinci_agent.Prelude.Text
use davinci_agent.Prelude.Text.{join}
use davinci_agent.Prelude.Value
use davinci_agent.Prelude.Value.{Value, Items, str}
use davinci_agent.Permissions.Defs.{Risk, low, medium, high, ToolAction, PermissionEngine}
use davinci_agent.Planning.Defs.{Plan, PlanStep}
use davinci_agent.Observability.Budget.{Budget}
use davinci_agent.Observability.Tracer.{Tracer, TraceEvent, Stamp}
use davinci_agent.Memory.Working.{WorkingMemory}
use davinci_agent.Registry.Defs.{ToolDescriptor, ToolRegistry}

-- What a call gives: a value, or an exception with its text.
pub data Result (A : Type 0) : Type 0 where
  ok : A → Result A
  raised : String → Result A

pub record ActionProposal : Type 0 where
  pub tool : Option ToolDescriptor
  pub args : Dict Value
  pub thought : String
  pub final_answer : Option String

pub record ToolResult : Type 0 where
  pub succeeded : Bool
  pub output : Value
  pub error : String

pub record Reflection : Type 0 where
  pub satisfied : Bool
  pub critique : String
  pub replan_titles : List String

-- an entry of `pending_review`
pub record Review : Type 0 where
  pub step_id : ℕ
  pub tool : String
  pub args : Dict Value
  pub reason : String
  pub risk : Risk

-- The pluggable parts (`Reasoner`, `ToolExecutor`, `Planner.strategy`) and what the interpreter's
-- library draws from outside (clock, event ids, digest), over a world that their calls may change.
-- `synthesize` is optional on a reasoner, and so are the two setters: without one it is the identity.
-- The setters are taken not to raise.
pub record Backend (W : Type 0) : Type 0 where
  pub propose : String → PlanStep → ToolRegistry → WorkingMemory → W → Result ActionProposal × W
  pub reflect : String → Plan → WorkingMemory → W → Result Reflection × W
  pub synthesize : Option (String → Plan → WorkingMemory → W → Result (Option String) × W)
  pub set_conversation : Items → W → W
  pub set_instructions : String → W → W
  pub make_plan : String → List String → W → Result Plan × W
  pub execute : ToolDescriptor → ToolAction → W → Result ToolResult × W
  pub stamp : W → Stamp × W
  pub clock : W → ℕ × W
  pub sha1_hex : String → String

-- what a `DavinciAgent` is made with
pub record Agent : Type 0 where
  pub registry : ToolRegistry
  pub permissions : PermissionEngine
  pub max_step_attempts : ℕ

-- what `run` and its calls change
pub record Run (W : Type 0) : Type 0 where
  pub plan : Plan
  pub budget : Budget
  pub working : WorkingMemory
  pub tracer : Tracer
  pub episodic : List TraceEvent
  pub fingerprints : Dict ℕ
  pub pending_review : List Review
  pub final_delivered : Bool
  pub world : W

-- `Risk(text)`; `none` is a `ValueError`
unfoldable pub parse_risk : String → Option Risk
parse_risk s =
    if s == "low"
    then some low
    else if s == "medium"
    then some medium
    else if s == "high"
    then some high
    else none

-- `DavinciAgent._estimate_tokens`
unfoldable pub estimate_tokens : Value → ℕ
estimate_tokens v = max 1 (count (str v) / 4)

place : String × Value → Dict Value → Dict Value
place x [] = x ∷ []
place x (y ∷ ys) =
    let on = y ∷ place x ys in elim (compare x.0 y.0) [ Ordering.gt ↦ on | _ ↦ x ∷ y ∷ ys ]

-- sorted(args.items()); no key stands twice, so the values are not compared
unfoldable pub sorted_args : Dict Value → Dict Value
unfolding place
sorted_args [] = []
sorted_args (x ∷ xs) = place x (sorted_args xs)

-- `DavinciAgent._fingerprint`, before the digest
unfoldable pub fingerprint_text : ToolAction → String
unfolding sorted_args
fingerprint_text action =
    action.tool_id
    <> "|["
    <> join ", "
        (map (λ e. "(" <> Text.repr e.0 <> ", " <> Value.repr e.1 <> ")") (sorted_args action.args))
    <> "]"

unfoldable pub fingerprint : (String → String) → ToolAction → String
fingerprint sha1_hex action = Text.take 16 (sha1_hex (fingerprint_text action))
