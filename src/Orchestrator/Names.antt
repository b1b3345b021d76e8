-- ===== src/Orchestrator/Names.antt =====
-- The index by name of the executor of davinci/caspar_executor.py.
use davinci_agent.Prelude.{
  String, ◌<>◌, ◌≡◌, ◌≢◌, none, some, List, [], ◌∷◌, ◌==◌, eq_iff, Bool-cases, inl, inr, ◌⊎◌, arith,
}
use davinci_agent.Prelude.Dict.{Dict, lookup, insert, lookup-insert}
use davinci_agent.Orchestrator.Defs.{ToolCapability}
use davinci_agent.Orchestrator.Executor.{index_names}

-- a capability of the list, under its id or under its name in the registry
abbrev pub IsNamed : List ToolCapability → String → ToolCapability → Type 0
IsNamed [] n c = ⊥
IsNamed (capability ∷ caps) n c =
    ((capability ≡ c) × ((n ≡ capability.tool_id) ⊎ (n ≡ "caspar__" <> capability.tool_id)))
    ⊎ IsNamed caps n c

insert-cases :
    (n k : String) (c capability : ToolCapability) (d : Dict ToolCapability)
    → lookup n (insert k capability d) ≡ some c
    → ((capability ≡ c) × (n ≡ k)) ⊎ (lookup n d ≡ some c)
insert-cases n k c capability d e = ground (arith, eq_iff k n, lookup-insert k n capability d)

index_names-IsNamed :
    (caps : List ToolCapability) (d : Dict ToolCapability) (n : String) (c : ToolCapability)
    → lookup n (index_names caps d) ≡ some c
    → IsNamed caps n c ⊎ (lookup n d ≡ some c)
unfolding index_names
index_names-IsNamed [] d n c e = inr e
index_names-IsNamed (capability ∷ caps) d n c e =
    let id = capability.tool_id in
    let named = insert ("caspar__" <> id) capability d in
    elim (index_names-IsNamed caps (insert id capability named) n c e) [
      | inl m ↦ inl (inr m)
      | inr e₁ ↦ elim (insert-cases n id c capability named e₁) [
        | inl (same, at) ↦ inl (inl (same, inl at))
        | inr e₂ ↦ elim (insert-cases n ("caspar__" <> id) c capability d e₂) [
          | inl (same, at) ↦ inl (inl (same, inr at))
          | inr e₃ ↦ inr e₃
        ]
      ]
    ]

no_entry : (n : String) (c : ToolCapability) → lookup n [] ≡ some c → ⊥
unfolding lookup
no_entry n c e = ground arith

pub index_entry :
    (caps : List ToolCapability) (n : String) (c : ToolCapability)
    → lookup n (index_names caps []) ≡ some c
    → IsNamed caps n c
index_entry caps n c e = elim (index_names-IsNamed caps [] n c e) [
  | inl named ↦ named
  | inr none_ ↦ absurd (no_entry n c none_)
]

insert-none :
    (n k : String) (capability : ToolCapability) (d : Dict ToolCapability)
    → lookup n (insert k capability d) ≡ none
    → (n ≢ k) × (lookup n d ≡ none)
insert-none n k capability d e = elim (Bool-cases (k == n)) [
  | inl same ↦ absurd (ground (arith, lookup-insert k n capability d))
  | inr other ↦ ((λ h. ground (arith, eq_iff k n)), ground (arith, lookup-insert k n capability d))
]

-- A name that is not in the index is that of no capability.
pub index_names-none :
    (caps : List ToolCapability) (d : Dict ToolCapability) (n : String)
    → lookup n (index_names caps d) ≡ none
    → ((c : ToolCapability) → ¬ IsNamed caps n c) × (lookup n d ≡ none)
unfolding index_names
index_names-none [] d n e = (λ c h. h, e)
index_names-none (capability ∷ caps) d n e =
    let id = capability.tool_id in
    let named = insert ("caspar__" <> id) capability d in
    let rest = index_names-none caps (insert id capability named) n e in
    let outer = insert-none n id capability named rest.1 in
    let inner = insert-none n ("caspar__" <> id) capability d outer.1 in
    (not_named capability caps n outer.0 inner.0 rest.0, inner.1)
  where
    not_named :
        (capability : ToolCapability) (caps : List ToolCapability) (n : String)
        → n ≢ capability.tool_id
        → n ≢ "caspar__" <> capability.tool_id
        → ((c : ToolCapability) → ¬ IsNamed caps n c)
        → (c : ToolCapability) → ¬ IsNamed (capability ∷ caps) n c
    not_named capability caps n x y others c (inl (same, inl at)) = x at
    not_named capability caps n x y others c (inl (same, inr at)) = y at
    not_named capability caps n x y others c (inr m) = others c m
