-- ===== src/Permissions/Modes.antt =====
-- `_mode_decision` of davinci/permissions.py, its modes read as one scale: how many of the three risk
-- tiers run unasked.
use davinci_agent.Prelude.{ℕ, suc, ◌≤◌, ◌≡◌, refl, arith, ltb, if◌then◌else◌}
use davinci_agent.Permissions.Defs.{
  Risk, low, medium, high, rank, PermissionMode, plan, default, accept_edits, auto, dont_ask,
  bypass, allow, review, ToolAction, PermissionEngine,
}
use davinci_agent.Permissions.Check.{mode_decision, check}
use davinci_agent.Permissions.Layers.{check_outcome}

-- the tiers that a mode allows, counted from the lowest
abbrev pub autonomy : PermissionMode → Risk → ℕ
autonomy plan ceiling = 0
autonomy default ceiling = 1
autonomy accept_edits ceiling = 2
autonomy auto ceiling = suc (rank ceiling)
autonomy dont_ask ceiling = 3
autonomy bypass ceiling = 3

-- A mode allows exactly the risks below its autonomy, and asks for review otherwise: it never
-- denies. Plan allows none, default the lowest tier, accept_edits two, auto those up to the
-- ceiling, dont_ask and bypass all three.
pub mode_decision_outcome :
    (mode : PermissionMode) (ceiling risk : Risk)
    → (mode_decision mode ceiling risk).outcome
      ≡ (if ltb (rank risk) (autonomy mode ceiling) then allow else review)
unfolding mode_decision
mode_decision_outcome default ceiling low = refl
mode_decision_outcome default ceiling medium = refl
mode_decision_outcome default ceiling high = refl
mode_decision_outcome bypass ceiling low = refl
mode_decision_outcome bypass ceiling medium = refl
mode_decision_outcome bypass ceiling high = refl
mode_decision_outcome dont_ask ceiling low = refl
mode_decision_outcome dont_ask ceiling medium = refl
mode_decision_outcome dont_ask ceiling high = refl
mode_decision_outcome accept_edits ceiling low = refl
mode_decision_outcome accept_edits ceiling medium = refl
mode_decision_outcome accept_edits ceiling high = refl
mode_decision_outcome plan ceiling risk = ground arith
mode_decision_outcome auto ceiling risk = ground arith

-- An action that an engine allows stays allowed when the engine's mode is changed to one of at
-- least its autonomy.
pub check-mode_mono :
    (e : PermissionEngine) (mode : PermissionMode) (action : ToolAction)
    → autonomy e.mode e.risk_ceiling ≤ autonomy mode e.risk_ceiling
    → (check e action).outcome ≡ allow
    → (check (record e { mode = mode }) action).outcome ≡ allow
check-mode_mono e mode action freer allows = ground (
  arith,
  check_outcome e action,
  check_outcome (record e { mode = mode }) action,
  mode_decision_outcome e.mode e.risk_ceiling action.risk,
  mode_decision_outcome mode e.risk_ceiling action.risk,
)
