-- ===== src/Observability/Counting.antt =====
-- Sequences of calls of `Tracer.emit`, and `Tracer.summary`, of davinci/observability.py.
use davinci_agent.Prelude.{
  ℕ, suc, ◌+◌, String, ◌≡◌, refl, List, [], ◌∷◌, ◌++◌, arith, length, append-nil, append_assoc, sym,
  ap, ◌∙◌, subst, or_else, ◌==◌, eq_iff, if◌then◌else◌,
}
use davinci_agent.Prelude.Dict.{Dict, lookup, insert, lookup-insert}
use davinci_agent.Prelude.Value.{Fields, dict}
use davinci_agent.Observability.Mask.{mask_secrets, mask_fields}
use davinci_agent.Observability.Substitution.{IsMaskedText, mask_text-IsMaskedText}
use davinci_agent.Observability.Masked.{IsMaskedFields, mask_fields-IsMasked}
use davinci_agent.Observability.Clean.{IsClean, IsCleanFields, mask_secrets-IsClean}
use davinci_agent.Observability.Tracer.{
  TraceEvent, Tracer, new_tracer, Stamp, emit, count_kinds, summary,
}

-- a call of `emit`
pub record Emission : Type 0 where
  pub stamp : Stamp
  pub kind : String
  pub message : String
  pub details : Fields

unfoldable pub emit_all : List Emission → Tracer → Tracer
emit_all [] t = t
emit_all (e ∷ es) t = emit_all es (emit e.stamp e.kind e.message e.details t).1

-- the event of a call of `emit`, with its number
pub record IsRecorded (k : ℕ) (call : Emission) (e : TraceEvent) : Type 0 where
  pub numbered : e.seq ≡ k
  pub stamped : (e.event_id ≡ call.stamp.event_id) × (e.ts_utc ≡ call.stamp.ts_utc)
  pub same_kind : e.kind ≡ call.kind
  pub text : IsMaskedText call.message e.message
  pub masked : IsMaskedFields call.details e.details
  pub clean : IsCleanFields e.details

-- one event for each call, in their order, numbered from `k`
abbrev pub IsTrace : ℕ → List Emission → List TraceEvent → Type 0
IsTrace k [] [] = Unit
IsTrace k (c ∷ cs) (e ∷ es) = IsRecorded k c e × IsTrace (suc k) cs es
IsTrace k cs es = ⊥

clean_details : (fs : Fields) → IsCleanFields (mask_fields fs)
clean_details fs = unfold IsClean mask_secrets in mask_secrets-IsClean (dict fs)

-- what the calls add to a tracer
record IsTracedFrom (es : List Emission) (t t' : Tracer) : Type 0 where
  added : List TraceEvent
  appended : t'.events ≡ t.events ++ added
  trace : IsTrace (suc t.seq) es added
  last : t'.seq ≡ t.seq + length es

emit-IsRecorded :
    (t : Tracer) (c : Emission)
    → IsRecorded (suc t.seq) c (emit c.stamp c.kind c.message c.details t).0
unfolding emit
emit-IsRecorded t c = record {
  numbered = refl;
  stamped = (refl, refl);
  same_kind = refl;
  text = mask_text-IsMaskedText c.message;
  masked = mask_fields-IsMasked c.details;
  clean = clean_details c.details;
}

emit-IsTracedFrom :
    (c : Emission) (cs : List Emission) (t t' : Tracer)
    → IsTracedFrom cs (emit c.stamp c.kind c.message c.details t).1 t'
    → IsTracedFrom (c ∷ cs) t t'
unfolding emit
emit-IsTracedFrom c cs t t' rest =
    let event = (emit c.stamp c.kind c.message c.details t).0 in
    record {
      added = event ∷ rest.added;
      appended = rest.appended ∙ append_assoc t.events (event ∷ []) rest.added;
      trace = (emit-IsRecorded t c, rest.trace);
      last = omega (arith, rest.last);
    }

emit_all-from : (es : List Emission) (t : Tracer) → IsTracedFrom es t (emit_all es t)
unfolding emit_all
emit_all-from [] t = record {
  added = [];
  appended = sym (append-nil t.events);
  trace = tt;
  last = omega arith;
}
emit_all-from (c ∷ cs) t =
    emit-IsTracedFrom c cs t (emit_all cs (emit c.stamp c.kind c.message c.details t).1)
      (emit_all-from cs (emit c.stamp c.kind c.message c.details t).1)

length-IsTrace :
    (k : ℕ) (cs : List Emission) (es : List TraceEvent) → IsTrace k cs es → length es ≡ length cs
length-IsTrace k [] [] h = refl
length-IsTrace k (c ∷ cs) (e ∷ es) h = ap suc (length-IsTrace (suc k) cs es h.1)
length-IsTrace k [] (e ∷ es) h = absurd h
length-IsTrace k (c ∷ cs) [] h = absurd h

-- what the calls give on a new tracer
pub record IsTraced (es : List Emission) (t : Tracer) : Type 0 where
  pub trace : IsTrace 1 es t.events
  pub last : t.seq ≡ length t.events

-- Any calls of `emit` on a new tracer give one event each, in their order and numbered 1, 2, 3, …
-- without a gap. An event has its call's kind, id and time, its call's message with the matches of
-- the credential patterns masked, from left to right and pattern after pattern, and its call's data:
-- the same keys and shape, with the mask under each key that looks like a credential's, at every
-- depth, the patterns masked in every other text, and numbers, truth values and `None` as they were.
pub emit_all-IsTraced :
    (run_id : String) (es : List Emission) → IsTraced es (emit_all es (new_tracer run_id))
emit_all-IsTraced run_id es =
    let g = emit_all-from es (new_tracer run_id) in
    let trace = subst (IsTrace 1 es) (sym g.appended) g.trace in
    record {
      trace = trace;
      last =
          omega (arith, g.last, length-IsTrace 1 es (emit_all es (new_tracer run_id)).events trace);
    }

-- how many events are of a kind
abbrev pub kind_count : String → List TraceEvent → ℕ
kind_count k [] = 0
kind_count k (e ∷ es) = let rest = kind_count k es in if e.kind == k then suc rest else rest

count_kinds-from :
    (k : String) (es : List TraceEvent) (counts : Dict ℕ)
    → or_else (lookup k (count_kinds counts es)) 0 ≡ or_else (lookup k counts) 0 + kind_count k es
unfolding count_kinds
count_kinds-from k [] counts = omega arith
count_kinds-from k (e ∷ es) counts =
    let here = or_else (lookup e.kind counts) 0 + 1 in
    ground (
      arith,
      eq_iff e.kind k,
      lookup-insert e.kind k here counts,
      count_kinds-from k es (insert e.kind here counts),
    )

-- `summary` gives the number of events, and under each kind how many events are of that kind (none
-- where the kind is missing).
summary_lem :
    (t : Tracer) (kind : String)
    → ((summary t).0 ≡ length t.events)
      × (or_else (lookup kind (summary t).1) 0 ≡ kind_count kind t.events)
unfolding summary
summary_lem t kind = (refl, unfold lookup in omega (arith, count_kinds-from kind t.events []))
