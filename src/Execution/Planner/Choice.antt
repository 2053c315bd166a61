-- ===== src/Execution/Planner/Choice.antt =====
-- What execution/planner.py promises of its choice: each backend serves its own operations, on a
-- capability that is not ambiguous, and none stands in for the other.
use ros2_mcp_server.Base.{
  String, ◌≡◌, refl, ◌≢◌, ◌↔◌, true, List, some, arith, ◌⊎◌, inl, inr, Option-cases,
}
use ros2_mcp_server.Contracts.Core.{Operation, ambiguous}
use ros2_mcp_server.Contracts.Discovery.{CapabilityEntry}
use ros2_mcp_server.Capabilities.Registry.{find_entry}
use ros2_mcp_server.Execution.Planner.{
  Backend, motion_backend, navigation_backend, Backends, select_backend, select_motion,
  select_navigation, is_usable,
}

module _ {R : Type 0} where
  -- The registry's entry of the capability, which is not ambiguous.
  pub record Usable (entries : List (CapabilityEntry R)) (capability_id : String) : Type 0 where
    pub entry : CapabilityEntry R
    pub found : find_entry capability_id entries ≡ some entry
    pub clear : entry.confidence ≢ ambiguous

  -- What has to hold for a backend to serve an operation.
  abbrev pub Serves : Backends → List (CapabilityEntry R) → Operation → Backend → Type 0
  Serves bs entries operation motion_backend =
      ((operation ≡ Operation.move) ⊎ (operation ≡ Operation.stop))
      × (bs.has_motion ≡ true)
      × Usable entries "differential_drive_motion"
  Serves bs entries operation navigation_backend =
      (operation ≡ Operation.navigate)
      × (bs.has_navigation ≡ true)
      × (bs.navigation_available ≡ true)
      × Usable entries "autonomous_navigation"
      × ((e : CapabilityEntry R) × (find_entry "localization" entries ≡ some e))

  is_usable-Usable :
      (entries : List (CapabilityEntry R)) (id : String)
      → (is_usable (find_entry id entries) ≡ true) ↔ Usable entries id
  is_usable-Usable entries id = elim (Option-cases (find_entry id entries)) [
    | inl e ↦ (λ h. absurd (ground (arith, e)), λ u. absurd (cc (e, u.found)))
    | inr (x, e) ↦ (
      λ h. record { entry = x; found = e; clear = ground (arith, e) },
      λ u. ground (arith, u.found, u.clear),
    )
  ]

  motion-Serves :
      (bs : Backends) (entries : List (CapabilityEntry R)) (operation : Operation) (b : Backend)
      → ((operation ≡ Operation.move) ⊎ (operation ≡ Operation.stop))
      → (select_motion bs entries ≡ some b) ↔ Serves bs entries operation b
  unfolding select_motion
  motion-Serves bs entries operation motion_backend o =
      let usable = is_usable-Usable entries "differential_drive_motion" in
      (λ h. (o, ground arith, usable.0 (ground arith)), λ (_, has, u). ground (arith, usable.1 u))
  motion-Serves bs entries operation navigation_backend o =
      (λ h. absurd (ground arith), λ v. absurd (ground arith))

  navigation-Serves :
      (bs : Backends) (entries : List (CapabilityEntry R)) (b : Backend)
      → (select_navigation bs entries ≡ some b) ↔ Serves bs entries Operation.navigate b
  unfolding select_navigation
  navigation-Serves bs entries motion_backend =
      (λ h. absurd (ground arith), λ v. absurd (ground arith))
  navigation-Serves bs entries navigation_backend =
      let usable = is_usable-Usable entries "autonomous_navigation" in
      (
        λ h. (
          refl,
          ground arith,
          ground arith,
          usable.0 (ground arith),
          elim (Option-cases (find_entry "localization" entries)) [
            | inl e ↦ absurd (ground (arith, e))
            | inr (x, e) ↦ (x, e)
          ],
        ),
        λ (_, has, available, u, (e, known)). ground (arith, usable.1 u, known),
      )

  -- The planner chooses the motion backend exactly for a move or a stop, with a motion capability that
  -- is not ambiguous, and the navigation backend exactly for a goal, with a navigation capability that
  -- is not ambiguous, a localization capability and an available server, each where the planner was
  -- given that backend: a goal never falls back to the motion backend.
  pub select_backend-Serves :
      (bs : Backends) (operation : Operation) (entries : List (CapabilityEntry R)) (b : Backend)
      → (select_backend bs operation entries ≡ some b) ↔ Serves bs entries operation b
  unfolding select_backend
  select_backend-Serves bs Operation.move entries b =
      motion-Serves bs entries Operation.move b (inl refl)
  select_backend-Serves bs Operation.stop entries b =
      motion-Serves bs entries Operation.stop b (inr refl)
  select_backend-Serves bs Operation.navigate entries b = navigation-Serves bs entries b
  select_backend-Serves bs _ entries motion_backend = (λ h. absurd (cc), λ v. absurd (ground arith))
  select_backend-Serves bs _ entries navigation_backend =
      (λ h. absurd (cc), λ v. absurd (ground arith))
