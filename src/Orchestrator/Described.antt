-- ===== src/Orchestrator/Described.antt =====
-- The schemas of the capabilities that `discover_tool_capabilities` (caspar_orchestrator.py) finds.
use davinci_agent.Prelude.{
  String, ◌≡◌, refl, sym, ap, ◌∙◌, Bool, true, false, ◌||◌, ◌&&◌, Option, none, some, List, [], ◌∷◌,
  ◌++◌, ◌⊎◌, inl, inr, All, All-append, all, any, any-append, ◌==◌, eq_iff, arith, or_else,
  Bool-cases, if◌then◌else◌,
}
use davinci_agent.Prelude.Text.{strip}
use davinci_agent.Prelude.Dict.{Dict, has, insert, has-insert}
use davinci_agent.Prelude.Value.{Value, list, dict, Fields, end, field, get, put, str, string}
use davinci_agent.Orchestrator.Defs.{ToolCapability}
use davinci_agent.Orchestrator.Metadata.{
  items, is_in, is_true, dicts, text_at, listed, function_schemas_of, function_schema,
  mcp_capability, capability_of_tools, capability_from_entity_metadata, iter_entities,
}
use davinci_agent.Orchestrator.Discovery.{
  required_keys, Routes, route, route_function, route_functions, no_routes, routed_capability,
  tool_capability, capability_of_tool, capabilities_of_tools, capabilities_of_metadata,
  capabilities_of_entity, capabilities_of_entities, discover_tool_capabilities,
}

or_false : (b : Bool) → (b || false) ≡ b
or_false true = refl
or_false false = refl

is_in-put :
    (j k : String) (v : Value) (fs : Fields)
    → is_in j (put k v fs) ≡ (if k == j then true else is_in j fs)
unfolding put get
is_in-put j k v end = ground arith
is_in-put j k v (field i w fs) =
    ground (arith, eq_iff k j, eq_iff i k, eq_iff i j, is_in-put j k v fs)

has-function_schemas_of :
    (k : String) (index : Dict Fields) (fs : Fields) (d : Dict Value)
    → has k (function_schemas_of index fs d) ≡ (is_in k fs || has k d)
unfolding function_schemas_of get
has-function_schemas_of k index end d = refl
has-function_schemas_of k index (field j v fs) d =
    has-function_schemas_of k index fs (insert j (function_schema index (str v)) d)
    ∙ ap (λ b. is_in k fs || b) (has-insert j k (function_schema index (str v)) d)
    ∙ ground arith

-- Either nothing is said of the functions, or there is a schema for exactly the categories that
-- have a function.
pub IsDescribed : ToolCapability → Type 0
IsDescribed c =
    (c.function_schemas ≡ []) ⊎ ((k : String) → has k c.function_schemas ≡ is_in k c.functions)

-- the categories, the functions and the schemas of a list of functions have the same keys
pub record IsRouted (r : Routes) : Type 0 where
  pub described : (k : String) → has k r.schemas ≡ is_in k r.functions
  pub routed : (k : String) → any (λ c. c == k) r.categories ≡ is_in k r.functions

any-added :
    (cs : List String) (category k : String)
    → any (λ c. c == k) (if any (λ c. c == category) cs then cs else cs ++ category ∷ [])
      ≡ (if category == k then true else any (λ c. c == k) cs)
any-added cs category k = elim (Bool-cases (any (λ c. c == category) cs)) [
  | inl there ↦ elim (Bool-cases (category == k)) [
    | inl same ↦
        rw (there, same) (ap (λ j. any (λ c. c == j) cs) (sym ((eq_iff category k).0 same)) ∙ there)
    | inr other ↦ rw (there, other) refl
  ]
  | inr new ↦ rw new (any-append (λ c. c == k) cs (category ∷ []) ∙ ground arith)
]

route-IsRouted :
    (category name : String) (fn : Fields) (r : Routes)
    → IsRouted r
    → IsRouted (route category name fn r)
unfolding route
route-IsRouted category name fn r h = record {
  described = λ k.
      has-insert category k _ r.schemas
      ∙ ap (λ b. if category == k then true else b) (h.described k)
      ∙ sym (is_in-put k category (string name) r.functions);
  routed = λ k.
      any-added r.categories category k
      ∙ ap (λ b. if category == k then true else b) (h.routed k)
      ∙ sym (is_in-put k category (string name) r.functions);
}

route_function-IsRouted : (v : Value) (r : Routes) → IsRouted r → IsRouted (route_function v r)
unfolding route_function
route_function-IsRouted (dict fn) r h =
    let category = strip (text_at "category" "" fn) in
    elim (Bool-cases (category == "")) [
      | inl empty ↦ rw (route_function, empty) h
      | inr named ↦ rw (route_function, named) (route-IsRouted category _ fn r h)
    ]
route_function-IsRouted v r h = h

pub route_functions-IsRouted :
    (vs : List Value) (r : Routes) → IsRouted r → IsRouted (route_functions vs r)
unfolding route_functions
route_functions-IsRouted [] r h = h
route_functions-IsRouted (v ∷ vs) r h =
    route_functions-IsRouted vs (route_function v r) (route_function-IsRouted v r h)

-- a capability, if there is one
abbrev IsDescribedIf : Option ToolCapability → Type 0
IsDescribedIf none = Unit
IsDescribedIf (some c) = IsDescribed c

routed_capability-IsDescribed :
    (entity tool : Fields) (functions categories : Option Value)
    → IsDescribedIf (routed_capability entity tool functions categories)
unfolding routed_capability tool_capability no_routes IsDescribed get has
routed_capability-IsDescribed entity tool (some (list fs)) categories =
    inr
      (route_functions-IsRouted (items fs) no_routes
        (record { described = λ k. refl; routed = λ k. refl })).described
routed_capability-IsDescribed entity tool (some (dict fs)) (some (list cs)) = inl refl
routed_capability-IsDescribed entity tool functions categories = tt

capability_of_tool-IsDescribed :
    (entity : Fields) (v : Value) → IsDescribedIf (capability_of_tool entity v)
unfolding capability_of_tool
capability_of_tool-IsDescribed entity (dict tool) =
    elim (Bool-cases (all (λ k. is_in k tool) required_keys)) [
      | inl whole ↦
          rw (capability_of_tool, whole)
            (routed_capability-IsDescribed entity tool (get "functions" tool)
              (get "categories" tool))
      | inr lacking ↦ rw (capability_of_tool, lacking) tt
    ]
capability_of_tool-IsDescribed entity v = tt

mcp-IsDescribed :
    (entity metadata first : Fields) (more : List Fields)
    → IsDescribed (mcp_capability entity metadata first more)
unfolding mcp_capability IsDescribed has
mcp-IsDescribed entity metadata first more =
    inr (λ k. has-function_schemas_of k _ _ [] ∙ or_false _)

with_next :
    (o : Option ToolCapability) (rest : List ToolCapability)
    → IsDescribedIf o
    → All IsDescribed rest
    → All IsDescribed (elim o [ none ↦ rest | some c ↦ c ∷ rest ])
with_next none rest h hs = hs
with_next (some c) rest h hs = (h, hs)

one_or :
    (o : Option ToolCapability) (rest : List ToolCapability)
    → IsDescribedIf o
    → All IsDescribed rest
    → All IsDescribed (elim o [ none ↦ rest | some c ↦ c ∷ [] ])
one_or none rest h hs = hs
one_or (some c) rest h hs = (h, tt)

module _ (entity : Fields) where
  capability_of_tools-IsDescribed :
      (metadata : Fields) (ts : List Fields)
      → IsDescribedIf (capability_of_tools entity metadata ts)
  unfolding capability_of_tools
  capability_of_tools-IsDescribed metadata [] = tt
  capability_of_tools-IsDescribed metadata (first ∷ more) =
      elim (Bool-cases (is_true (get "isMcp" metadata) && all (is_in "name") (first ∷ more))) [
        | inl mcp ↦ rw (capability_of_tools, mcp) (mcp-IsDescribed entity metadata first more)
        | inr other ↦ rw (capability_of_tools, other) tt
      ]

  capabilities_of_tools-IsDescribed :
      (vs : List Value) → All IsDescribed (capabilities_of_tools entity vs)
  unfolding capabilities_of_tools
  capabilities_of_tools-IsDescribed [] = tt
  capabilities_of_tools-IsDescribed (v ∷ vs) =
      with_next (capability_of_tool entity v) (capabilities_of_tools entity vs)
        (capability_of_tool-IsDescribed entity v) (capabilities_of_tools-IsDescribed vs)

  capabilities_of_metadata-IsDescribed :
      (v : Value) → All IsDescribed (capabilities_of_metadata entity v)
  unfolding capabilities_of_metadata capability_from_entity_metadata
  capabilities_of_metadata-IsDescribed (dict metadata) =
      one_or (capability_from_entity_metadata entity metadata)
        (capabilities_of_tools entity (listed (get "tools" metadata)))
        (capability_of_tools-IsDescribed metadata (dicts (listed (get "tools" metadata))))
        (capabilities_of_tools-IsDescribed (listed (get "tools" metadata)))
  capabilities_of_metadata-IsDescribed v = tt

capabilities_of_entity-IsDescribed : (v : Value) → All IsDescribed (capabilities_of_entity v)
unfolding capabilities_of_entity
capabilities_of_entity-IsDescribed (dict entity) =
    capabilities_of_metadata-IsDescribed entity (or_else (get "metadata" entity) (dict end))
capabilities_of_entity-IsDescribed v = tt

capabilities_of_entities-IsDescribed :
    (vs : List Value) → All IsDescribed (capabilities_of_entities vs)
unfolding capabilities_of_entities
capabilities_of_entities-IsDescribed [] = tt
capabilities_of_entities-IsDescribed (v ∷ vs) =
    All-append IsDescribed (capabilities_of_entity v) (capabilities_of_entities vs)
      (capabilities_of_entity-IsDescribed v) (capabilities_of_entities-IsDescribed vs)

-- Whatever the catalog holds, each capability found in it has either no schemas at all or a schema
-- for exactly the categories that have a function.
pub discover_tool_capabilities-IsDescribed :
    (catalog : Fields) → All IsDescribed (discover_tool_capabilities catalog)
unfolding discover_tool_capabilities
discover_tool_capabilities-IsDescribed catalog =
    capabilities_of_entities-IsDescribed (iter_entities catalog)
