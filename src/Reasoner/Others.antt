-- ===== src/Reasoner/Others.antt =====
-- Who is listed among the other participants (davinci/reasoner.py).
use davinci_agent.Prelude.{String, ◌≡◌, true, false, Option, none, some, List, [], ◌∷◌, ◌==◌}
use davinci_agent.Prelude.Value.{Value}
use davinci_agent.Reasoner.Group.{Participant, lowered, meets}

-- A participant with a name who, where it is an agent, shares no name, handle or id with the agent
-- that these keys identify, whatever the case of the letters.
pub record IsOther (me : List String) (p : Participant) : Type 0 where
  pub is_named : (p.name == "") ≡ false
  pub distinct :
      (p.kind == "agent") ≡ true → meets me (lowered (p.id ∷ p.name ∷ p.handle ∷ [])) ≡ false

abbrev IsOtherIf : List String → Option Participant → Type 0
IsOtherIf me none = Unit
IsOtherIf me (some p) = IsOther me p
