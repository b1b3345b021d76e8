-- ===== src/Orchestrator/Groups.antt =====
-- A dict of lists, as `d.setdefault(k, []).append(x)` builds it in caspar_orchestrator.py. A key
-- is any value that Python can hash.
use davinci_agent.Prelude.{
  String, ◌<>◌, ◌≡◌, true, false, Option, none, some, List, [], ◌∷◌, ◌++◌, append_assoc, append-nil,
  ◌==◌, eq_iff, Option-cases, inl, inr, arith, if◌then◌else◌,
}
use davinci_agent.Prelude.Dict.{Dict, lookup, insert, lookup-insert}
use davinci_agent.Prelude.Int
use davinci_agent.Prelude.Value.{Value, null, bool, int, string, list, dict}

-- What two equal keys share, and no other: `True` is the key 1. A list or a dict is no key.
unfoldable pub key_of : Value → Option String
key_of null = some "null"
key_of (bool true) = some "int 1"
key_of (bool false) = some "int 0"
key_of (int n) = some ("int " <> Int.show n)
key_of (string s) = some ("text " <> s)
key_of (list vs) = none
key_of (dict fs) = none

-- the keys as they were first written, and the lists
abbrev pub Groups : Type 0 → Type 0
Groups V = Dict (Value × List V)

module _ {V : Type 0} where
  unfoldable pub members : String → Groups V → List V
  members k g = elim (lookup k g) [ none ↦ [] | some e ↦ e.1 ]

  unfoldable pub add_to : String → Value → V → Groups V → Groups V
  add_to k v x g = elim (lookup k g) [
    | none ↦ insert k (v, x ∷ []) g
    | some e ↦ insert k (e.0, e.1 ++ x ∷ []) g
  ]

  -- `none` is the `TypeError` of a value that is no key
  unfoldable pub group : Value → V → Groups V → Option (Groups V)
  unfolding add_to
  group v x g = elim (key_of v) [ none ↦ none | some k ↦ some (add_to k v x g) ]

  -- for v in vs: d.setdefault(v, []).append(x)
  unfoldable pub group_all : List Value → V → Groups V → Option (Groups V)
  unfolding group
  group_all [] x g = some g
  group_all (v ∷ vs) x g = elim (group v x g) [ none ↦ none | some h ↦ group_all vs x h ]

  -- how often the key is among the values, each with `x`
  abbrev pub occurrences : String → List Value → V → List V
  occurrences k [] x = []
  occurrences k (v ∷ vs) x =
      let rest = occurrences k vs x in
      elim (key_of v) [ none ↦ rest | some j ↦ if j == k then x ∷ rest else rest ]

  members-add_to :
      (k j : String) (v : Value) (x : V) (g : Groups V)
      → members k (add_to j v x g) ≡ (if j == k then members k g ++ x ∷ [] else members k g)
  unfolding members add_to
  members-add_to k j v x g = elim (Option-cases (lookup j g)) [
    | inl new ↦ ground (arith, eq_iff j k, lookup-insert j k (v, x ∷ []) g)
    | inr (e, known) ↦ ground (arith, eq_iff j k, lookup-insert j k (e.0, e.1 ++ x ∷ []) g)
  ]

  pub members-group_all :
      (k : String) (vs : List Value) (x : V) (g h : Groups V)
      → group_all vs x g ≡ some h
      → members k h ≡ members k g ++ occurrences k vs x
  unfolding group_all group
  members-group_all k [] x g h e = ground (arith, append-nil (members k g))
  members-group_all k (v ∷ vs) x g h e = elim (Option-cases (key_of v)) [
    | inl unhashable ↦ absurd (ground arith)
    | inr (j, known) ↦ ground (
      arith,
      members-group_all k vs x (add_to j v x g) h,
      members-add_to k j v x g,
      append_assoc (members k g) (x ∷ []) (occurrences k vs x),
    )
  ]
