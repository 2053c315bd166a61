-- ===== src/Mcp/Offered.antt =====
-- Which tools mcp/tool_provider.py offers: the rule that an ambiguous capability offers none.
use ros2_mcp_server.Base.{
  String, ◌≡◌, refl, Bool, true, not, ◌&&◌, ◌||◌, List, [], ◌∷◌, Option, none, some, ◌==◌, arith,
  Dict, get, put, get-put, keep, any, map, All, Bool-cases, Option-cases, inl, inr,
}
use ros2_mcp_server.Number.{Number}
use ros2_mcp_server.Contracts.Discovery.{CapabilityEntry}
use ros2_mcp_server.Mcp.Schemas.{McpToolSpec, ToolDefinition, tool_definitions, tool_by_name}
use ros2_mcp_server.Mcp.Provider.{collect, is_offered, current_tools}
use ros2_mcp_server.Execution.Planner.{is_usable, is_ambiguous}

module _ {R : Type 0} where
  -- An entry of that capability that is not ambiguous.
  abbrev pub backs : String → CapabilityEntry R → Bool
  backs id e = e.capability_id == id && not (is_ambiguous e.confidence)

  abbrev pub IsBacked : List (CapabilityEntry R) → Option String → Type 0
  IsBacked entries none = Unit
  IsBacked entries (some id) = any (backs id) entries ≡ true

  collect-any :
      (id : String) (d : Dict (CapabilityEntry R)) (es : List (CapabilityEntry R))
      → is_usable (get id (collect d es)) ≡ true
      → is_usable (get id d) || any (backs id) es ≡ true
  collect-any id d [] h = ground arith
  collect-any id d (e ∷ es) h =
      ground (arith, collect-any id (put e.capability_id e d) es h, get-put e.capability_id id e d)

  is_offered-IsBacked :
      (entries : List (CapabilityEntry R)) (d : ToolDefinition R)
      → is_offered (collect [] entries) d ≡ true
      → IsBacked entries d.required_capability_id
  unfolding get
  is_offered-IsBacked entries d h = elim (Option-cases d.required_capability_id) [
    | inl e ↦ rw e tt
    | inr (id, e) ↦ rw e (collect-any id [] entries (rw e at h))
  ]

  All-map-keep {ℓ κ} :
      {A : Type ℓ} (P : ToolDefinition R → Type κ) (Q : A → Type κ) (p : ToolDefinition R → Bool)
      (f : ToolDefinition R → A)
      → ((d : ToolDefinition R) → P d → p d ≡ true → Q (f d))
      → (ds : List (ToolDefinition R)) → All P ds
      → All Q (map f (keep p ds))
  All-map-keep P Q p f h [] k = tt
  All-map-keep P Q p f h (d ∷ ds) k = elim (Bool-cases (p d)) [
    | inl e ↦ rw e (h d k.0 e, All-map-keep P Q p f h ds k.1)
    | inr e ↦ rw e (All-map-keep P Q p f h ds k.1)
  ]

module _ {R : Type 0} ⦃n : Number R⦄ where
  abbrev pub Offered : List (CapabilityEntry R) → McpToolSpec R → Type 0
  Offered entries spec =
      (d : ToolDefinition R) × (tool_by_name spec.name ≡ some d)
      × (d.spec ≡ spec)
      × IsBacked entries d.required_capability_id

  -- Every tool that is offered is one that a call finds by its name, and where it requires a
  -- capability, the registry has an entry of that capability that is not ambiguous.
  pub current_tools-Offered :
      (entries : List (CapabilityEntry R)) → All (Offered entries) (current_tools entries)
  unfolding current_tools tool_by_name
  current_tools-Offered entries =
      All-map-keep (λ d. tool_by_name d.spec.name ≡ some d) (Offered entries)
        (is_offered (collect [] entries)) (λ d. d.spec)
        (λ d found e. (d, found, refl, is_offered-IsBacked entries d e)) tool_definitions
        (refl, (refl, (refl, (refl, (refl, (refl, (refl, (refl, tt))))))))
