-- ===== src/Engine/Monad.antt =====
-- Methods of `DavinciAgent` during a run: they change the run and may raise. What was changed
-- before a raise stays changed.
use davinci_agent.Prelude.{ℕ, String, Bool, Option, none, some, [], ◌∷◌, ◌++◌}
use davinci_agent.Prelude.Value.{Value, Fields}
use davinci_agent.Planning.Defs.{Plan}
use davinci_agent.Observability.Budget.{Budget}
use davinci_agent.Observability.Tracer.{emit}
use davinci_agent.Memory.Working.{WorkingMemory, remember}
use davinci_agent.Prelude.Dict.{insert}
use davinci_agent.Engine.Defs.{Result, ok, raised, Review, Backend, Run}

abbrev pub M : Type 0 → Type 0 → Type 0
M W A = Run W → Result A × Run W

module _ {W A : Type 0} where
  unfoldable pub pure : A → M W A
  pure a s = (ok a, s)

  unfoldable pub throw : String → M W A
  throw e s = (raised e, s)

  unfoldable pub gets : (Run W → A) → M W A
  gets f s = (ok (f s), s)

  -- a call of a part that is outside, which may raise
  unfoldable pub ask : (W → Result A × W) → M W A
  ask f s = let (r, w) = f s.world in (r, record s { world = w })

  -- the same, under `try: … except Exception as exc: …`
  unfoldable pub try_ask : (W → Result A × W) → M W (Result A)
  try_ask f s = let (r, w) = f s.world in (ok r, record s { world = w })

module _ {W : Type 0} where
  -- writes to the parts of the run
  unfoldable pub on_budget : (Budget → Budget) → M W Unit
  on_budget f s = (ok tt, record s { budget = f s.budget })

  unfoldable pub on_working : (WorkingMemory → WorkingMemory) → M W Unit
  on_working f s = (ok tt, record s { working = f s.working })

  unfoldable pub on_world : (W → W) → M W Unit
  on_world f s = (ok tt, record s { world = f s.world })

  unfoldable pub set_plan : Plan → M W Unit
  set_plan p s = (ok tt, record s { plan = p })

  unfoldable pub set_seen : String → ℕ → M W Unit
  set_seen key seen s = (ok tt, record s { fingerprints = insert key seen s.fingerprints })

  unfoldable pub add_review : Review → M W Unit
  add_review r s = (ok tt, record s { pending_review = s.pending_review ++ r ∷ [] })

  unfoldable pub set_delivered : Bool → M W Unit
  set_delivered d s = (ok tt, record s { final_delivered = d })

  unfoldable pub clear_reviews : M W Unit
  clear_reviews s = (ok tt, record s { pending_review = [] })

  or_key_error : Option Plan → M W Unit
  or_key_error none s = (raised "KeyError", s)
  or_key_error (some p) s = (ok tt, record s { plan = p })

  -- a call of a method of the plan, which may raise a `KeyError`
  unfoldable pub on_plan : (Plan → Option Plan) → M W Unit
  unfolding or_key_error
  on_plan f s = or_key_error (f s.plan) s

  unfoldable pub now : Backend W → M W ℕ
  now b s = let (t, w) = b.clock s.world in (ok t, record s { world = w })

  -- `DavinciAgent._record`
  unfoldable pub record_event : Backend W → String → String → Fields → M W Unit
  record_event b kind message details s =
      let (stamp, w) = b.stamp s.world in
      let (event, tracer) = emit stamp kind message details s.tracer in
      (ok tt, record s { tracer = tracer; episodic = s.episodic ++ event ∷ []; world = w })

module _ {W A B : Type 0} where
  abbrev pub continue : Result A → (A → M W B) → M W B
  continue (ok a) f s = f a s
  continue (raised e) f s = (raised e, s)

  infixl 5 ◌>>=◌ ◌>>◌
  -- opening this opens the actions above
  unfoldable pub ◌>>=◌ : M W A → (A → M W B) → M W B
  unfolding pure throw gets ask try_ask on_budget on_working on_world set_plan set_seen add_review
      set_delivered clear_reviews on_plan now record_event
  ◌>>=◌ m f s = let (r, s') = m s in continue r f s'

  abbrev pub ◌>>◌ : M W A → M W B → M W B
  m >> k = m >>= λ _. k

-- `self.working.remember(role, content)`
abbrev pub note : {W : Type 0} → String → Value → M W Unit
note role content = on_working (remember role content)
