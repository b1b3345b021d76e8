-- ===== src/Observability/Tracer.antt =====
-- `Tracer` of davinci/observability.py. The event's id and time are drawn by the caller; the sink
-- cannot change the tracer, whether it raises or not.
use davinci_agent.Prelude.{ℕ, suc, ◌+◌, String, List, [], ◌∷◌, ◌++◌, length, or_else}
use davinci_agent.Prelude.Dict.{Dict, lookup, insert}
use davinci_agent.Prelude.Value.{Fields}
use davinci_agent.Observability.Patterns.{mask_text}
use davinci_agent.Observability.Mask.{mask_fields}

pub record TraceEvent : Type 0 where
  pub seq : ℕ
  pub event_id : String
  pub ts_utc : String
  pub kind : String
  pub message : String
  pub details : Fields

pub record Tracer : Type 0 where
  pub run_id : String
  pub events : List TraceEvent
  pub seq : ℕ

abbrev pub new_tracer : String → Tracer
new_tracer run_id = record { run_id = run_id; events = []; seq = 0 }

-- what the caller draws for an event: `uuid.uuid4` and the clock
pub record Stamp : Type 0 where
  pub event_id : String
  pub ts_utc : String

unfoldable pub emit : Stamp → String → String → Fields → Tracer → TraceEvent × Tracer
emit stamp kind message details t =
    let event : TraceEvent = record {
      seq = suc t.seq;
      event_id = stamp.event_id;
      ts_utc = stamp.ts_utc;
      kind = kind;
      message = mask_text message;
      details = mask_fields details;
    } in
    (event, record t { seq = suc t.seq; events = t.events ++ event ∷ [] })

unfoldable pub count_kinds : Dict ℕ → List TraceEvent → Dict ℕ
count_kinds counts [] = counts
count_kinds counts (e ∷ es) =
    count_kinds (insert e.kind (or_else (lookup e.kind counts) 0 + 1) counts) es

-- `Tracer.summary`: the number of events, and the counts by kind
unfoldable pub summary : Tracer → ℕ × Dict ℕ
unfolding count_kinds
summary t = (length t.events, count_kinds [] t.events)
