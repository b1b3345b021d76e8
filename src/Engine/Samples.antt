-- ===== src/Engine/Samples.antt =====
-- A small world for `DavinciAgent` (davinci/engine.py), and the theorems at it.
use davinci_agent.Prelude.{All, ℕ, suc, ◌≡◌, ◌≢◌, refl, true, false, none, some, [], ◌∷◌, arith}
use davinci_agent.Prelude.Value.{string, dict, Items, nil, cons, field, end}
use davinci_agent.Permissions.Defs.{high, plan, allow, ToolAction}
use davinci_agent.Permissions.Check.{init, check}
use davinci_agent.Planning.Defs.{pending, failed, Plan, PlanStep, count_status}
use davinci_agent.Planning.Ops.{heuristic_plan, new_plan, replan_failed}
use davinci_agent.Observability.Tracer.{new_tracer}
use davinci_agent.Memory.Working.{new_memory}
use davinci_agent.Registry.Defs.{ToolDescriptor}
use davinci_agent.Engine.Defs.{ok, raised, Backend, Agent, Run, fingerprint}
use davinci_agent.Engine.Step.{gate, run_step}
use davinci_agent.Engine.Loop.{out_of_fuel, run_loop}
use davinci_agent.Engine.Entry.{finished, no_fuel, RunResult, Request, run}
use davinci_agent.Engine.Offline.{reflect}
use davinci_agent.Engine.Retries.{reflect-replan_failed}
use davinci_agent.Engine.History.{normalize_history}
use davinci_agent.Engine.Roles.{IsCanonical, normalize_history-IsCanonical}
use davinci_agent.Engine.Success.{IsSettled, run_success}
use davinci_agent.Engine.Spending.{Charged}
use davinci_agent.Engine.Charges.{run_step-Charged}
use davinci_agent.Engine.Ending.{run_ends}
use davinci_agent.Engine.Bounds.{Within, run-Within}
use davinci_agent.Engine.Gate.{Executor, with_executor, gate_closed}

abbrev shell : ToolDescriptor
shell = record {
  name = "shell";
  description = "run a command";
  category = "system";
  risk = "high";
  requires_network = false;
  server = "local";
  schema_loader = none;
  loaded = none;
}

-- a reasoner that always wants the shell, and an executor that always succeeds
abbrev eager : Backend ℕ
eager = record {
  propose = λ objective step registry working w. (
    ok (record {
      tool = some shell;
      args = ("command", string "ls") ∷ [];
      thought = "run";
      final_answer = none;
    }),
    suc w,
  );
  reflect = λ objective p working w.
      (ok (record { satisfied = false; critique = "again"; replan_titles = "retry" ∷ [] }), suc w);
  synthesize = none;
  set_conversation = λ convo w. w;
  set_instructions = λ text w. w;
  make_plan = λ objective required w. (ok (heuristic_plan "now" objective required), suc w);
  execute = λ tool action w.
      (ok (record { succeeded = true; output = string "done"; error = "" }), suc w);
  stamp = λ w. (record { event_id = "e"; ts_utc = "now" }, w);
  clock = λ w. (w, suc w);
  sha1_hex = λ s. s;
}

abbrev careful : Agent
careful = record {
  registry = ("shell", shell) ∷ [];
  permissions = init plan high [] [];
  max_step_attempts = 2;
}

abbrev fresh : Run ℕ
fresh = record {
  plan = new_plan "report" "now";
  budget = record {
    max_steps = 3;
    max_tool_calls = 3;
    max_tokens = 100;
    max_wall = 60;
    steps_used = 0;
    tool_calls_used = 0;
    tokens_used = 0;
    started_at = 0;
  };
  working = new_memory 10;
  tracer = new_tracer "run";
  episodic = [];
  fingerprints = [];
  pending_review = [];
  final_delivered = false;
  world = 0;
}

abbrev request : Request
request = record {
  objective = "report";
  required_categories = [];
  replan_budget = 1;
  attachments = nil;
  history = nil;
  instructions = "";
}

abbrev step : PlanStep
step = record {
  id = 1;
  title = "read";
  category = "analysis";
  rationale = "";
  status = pending;
  result = none;
  attempts = 0;
}

abbrev command : ToolAction
command = record {
  tool_id = "shell";
  category = "system";
  risk = high;
  args = ("command", string "ls") ∷ [];
  requires_network = false;
}

-- an executor that gives up
abbrev broken : Executor ℕ
broken tool action w = (raised "down", w)

run_step-Charged_example :
    Charged 1 1 fresh.budget (run_step eager careful "report" step fresh).1.budget
run_step-Charged_example = run_step-Charged eager careful "report" step fresh

run_ends_example : (run eager careful 5 request fresh).0 ≢ ok no_fuel
run_ends_example = run_ends eager careful 5 request fresh (omega arith)

fresh-Within : Within fresh.budget fresh.budget
fresh-Within = record {
  same_steps = refl;
  same_calls = refl;
  steps = omega arith;
  calls = omega arith;
}

run-Within_example : Within fresh.budget (run eager careful 5 request fresh).1.budget
run-Within_example = run-Within eager careful 5 request fresh fresh-Within

plan_mode_asks : (check careful.permissions command).outcome ≢ allow
unfolding check
plan_mode_asks = ground arith

gate_closed_example :
    gate eager careful step shell command fresh
    ≡ gate (with_executor broken eager) careful step shell command fresh
gate_closed_example = gate_closed eager careful broken step shell command fresh plan_mode_asks

-- after the same action twice
abbrev repeated : Run ℕ
repeated = record fresh { fingerprints = (fingerprint eager.sha1_hex command, 2) ∷ [] }

-- a reasoner that answers at once
abbrev chatty : Backend ℕ
chatty = record eager {
  propose = λ objective step registry working w. (
    ok (record { tool = none; args = []; thought = "greet"; final_answer = some "hello" }),
    suc w,
  );
  make_plan = λ objective required w.
      (ok (record (new_plan objective "now") { steps = step ∷ []; next_id = 2 }), suc w);
}

abbrev greeting : RunResult
greeting = record { success = true; answer = "hello"; pending_review = [] }

greets : (run chatty careful 5 request fresh).0 ≡ ok (finished greeting)
unfolding run run_loop run_step davinci_agent.Engine.Monad.◌>>=◌ davinci_agent.Engine.Entry.begin
    davinci_agent.Engine.Entry.seed_attachments davinci_agent.Engine.Entry.seed_history
    davinci_agent.Engine.History.normalize_history davinci_agent.Engine.Loop.check_budget
    davinci_agent.Engine.Loop.turn_within davinci_agent.Observability.Budget.exceeded
    davinci_agent.Engine.Loop.turn davinci_agent.Planning.Defs.next_pending
    davinci_agent.Planning.Ops.start davinci_agent.Planning.Ops.update_step
    davinci_agent.Planning.Ops.count_attempt davinci_agent.Engine.Step.follow
    davinci_agent.Engine.Step.answer_step davinci_agent.Planning.Ops.complete
    davinci_agent.Engine.Step.deliver_if_last davinci_agent.Engine.Loop.after_step
    davinci_agent.Engine.Entry.after_loop davinci_agent.Engine.Entry.conclude
    davinci_agent.Engine.Entry.judge davinci_agent.Planning.Defs.is_complete
    davinci_agent.Planning.Defs.has_failures davinci_agent.Engine.Entry.resolve_answer
    davinci_agent.Prelude.Text.strip davinci_agent.Observability.Budget.charge_step
greets = refl

run_success_example : IsSettled (run chatty careful 5 request fresh).1
run_success_example = run_success chatty careful 5 request fresh greeting greets refl

abbrev broken_plan : Plan
broken_plan = record (new_plan "report" "now") {
  steps = record step { status = failed } ∷ record step { id = 2 } ∷ [];
  next_id = 3;
}

reflect-replan_failed_example :
    ((reflect broken_plan).satisfied ≡ false)
    × (count_status failed (replan_failed broken_plan (reflect broken_plan).replan_titles).steps
        ≡ 0)
    × (count_status pending (replan_failed broken_plan (reflect broken_plan).replan_titles).steps
        ≡ 2)
unfolding davinci_agent.Planning.Defs.has_failures count_status
reflect-replan_failed_example = reflect-replan_failed broken_plan

abbrev history : Items
history =
    cons (dict (field "from" (string "Bot") (field "text" (string " hi ") end)))
      (cons (string "noise") (cons (dict (field "role" (string "user") end)) nil))

normalize_history-IsCanonical_example : All IsCanonical (normalize_history history)
normalize_history-IsCanonical_example = normalize_history-IsCanonical history
