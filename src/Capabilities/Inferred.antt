-- ===== src/Capabilities/Inferred.antt =====
-- The entries that capabilities/inference.py gives for a snapshot, one function after the other.
use ros2_mcp_server.Base.{
  String, ◌≡◌, refl, true, false, List, [], ◌∷◌, Option, none, some, ◌==◌, eq_iff, arith, keep,
  find, sole, any, Option-cases, Bool-cases, inl, inr,
}
use ros2_mcp_server.Contracts.Core.{Confidence, ambiguous}
use ros2_mcp_server.Contracts.Config.{CapabilityConfig, SafetyConfig}
use ros2_mcp_server.Contracts.Discovery.{ActionInfo, GraphSnapshot, CapabilityEntry}
use ros2_mcp_server.Capabilities.Ontology.{
  laser_scan_type, pose_with_cov_type, navigate_to_pose_type, topics_of_type, named, match_action,
  navigation_entry, infer_autonomous_navigation, infer_localization, infer_range_sensing,
  infer_visual_observation, infer_object_detection,
}
use ros2_mcp_server.Capabilities.Inference.{present, infer}
use ros2_mcp_server.Capabilities.Grounded.{
  types_of, is_action, IsGrounded, GroundedIf, named-any, action-any, sole_action-any,
  match_one-MatchStands, single-GroundedIf,
}
use ros2_mcp_server.Capabilities.MotionGrounded.{infer_motion-GroundedIf}

module _ {R : Type 0} where
  infer_range_sensing-GroundedIf :
      (snapshot : GraphSnapshot R) (overrides : CapabilityConfig)
      → GroundedIf snapshot (infer_range_sensing snapshot overrides)
  unfolding infer_range_sensing
  infer_range_sensing-GroundedIf snapshot overrides =
      single-GroundedIf snapshot "range_sensing" "laser_scan" overrides.lidar.topic "scan" _
        (match_one-MatchStands snapshot _ (types_of "scan") overrides.lidar.topic
          (λ u k. ground (arith, k, eq_iff u.type_name laser_scan_type)))
        refl

  infer_visual_observation-GroundedIf :
      (snapshot : GraphSnapshot R) (overrides : CapabilityConfig)
      → GroundedIf snapshot (infer_visual_observation snapshot overrides)
  unfolding infer_visual_observation
  infer_visual_observation-GroundedIf snapshot overrides =
      single-GroundedIf snapshot "visual_observation" "camera" overrides.camera.image_topic "image"
        _
        (match_one-MatchStands snapshot _ (types_of "image") overrides.camera.image_topic
          (λ u k. k))
        refl

  infer_localization-GroundedIf :
      (snapshot : GraphSnapshot R) (overrides : CapabilityConfig)
      → GroundedIf snapshot (infer_localization snapshot overrides)
  unfolding infer_localization
  infer_localization-GroundedIf snapshot overrides =
      elim (Option-cases (named "/amcl_pose" (topics_of_type snapshot pose_with_cov_type))) [
        | inr (t, e) ↦
            rw (e, infer_localization)
              (record {
                stands = (
                  named-any snapshot (λ u. u.type_name == pose_with_cov_type)
                      (pose_with_cov_type ∷ []) "/amcl_pose"
                      (λ u k. ground (arith, k, eq_iff u.type_name pose_with_cov_type)) e,
                  tt,
                );
                not_guessed = λ k. absurd (ground arith);
              })
        | inl e ↦ rw (e, infer_localization) (ground arith)
      ]

  infer_object_detection-GroundedIf :
      (snapshot : GraphSnapshot R) (overrides : CapabilityConfig)
      (visual : Option (CapabilityEntry R))
      → GroundedIf snapshot visual
      → GroundedIf snapshot (infer_object_detection visual overrides)
  unfolding infer_object_detection
  infer_object_detection-GroundedIf snapshot overrides none g = tt
  infer_object_detection-GroundedIf snapshot overrides (some e) g = record {
    stands = g.stands;
    not_guessed = g.not_guessed;
  }

  -- The action that is matched stands in the snapshot, or its name is empty.
  ActionStands : GraphSnapshot R → Confidence × String → Type 0
  ActionStands snapshot (confidence, name) =
      ((name == "") ≡ false → any (is_action name) snapshot.actions ≡ true)
      × (confidence ≡ ambiguous → (name == "") ≡ true)

  match_action-ActionStands :
      (snapshot : GraphSnapshot R) (configured : String)
      → ActionStands snapshot (
          match_action
            (find
              (λ b. b.name == configured)
              (keep (λ b. b.type_name == navigate_to_pose_type) snapshot.actions))
            (sole (keep (λ b. b.type_name == navigate_to_pose_type) snapshot.actions)))
  unfolding ActionStands
  match_action-ActionStands snapshot configured =
      let matching = keep (λ b. b.type_name == navigate_to_pose_type) snapshot.actions in
      elim (Option-cases (find (λ b. b.name == configured) matching)) [
        | inr (a, e) ↦ rw e ((λ k. action-any snapshot configured e), (λ k. absurd (cc)))
        | inl e ↦ rw e (elim (Option-cases (sole matching)) [
          | inr (a, k) ↦ rw k ((λ l. sole_action-any snapshot k), (λ l. absurd (cc)))
          | inl k ↦ rw k ((λ l. absurd (cc)), (λ l. refl))
        ])
      ]

  navigation_entry-GroundedIf :
      (snapshot : GraphSnapshot R) (overrides : CapabilityConfig) (safety : SafetyConfig R)
      (matching : List ActionInfo)
      → ActionStands snapshot (
          match_action
            (find (λ a. a.name == overrides.navigation.action_name) matching)
            (sole matching))
      → GroundedIf snapshot (navigation_entry overrides.navigation safety matching)
  unfolding ActionStands
  navigation_entry-GroundedIf snapshot overrides safety [] h = tt
  navigation_entry-GroundedIf snapshot overrides safety (a ∷ rest) h =
      let name =
        (match_action (find (λ b. b.name == overrides.navigation.action_name) (a ∷ rest))
          (sole (a ∷ rest))).1 in
      elim (Bool-cases (name == "")) [
        | inl e ↦ record { stands = rw e tt; not_guessed = λ k. rw e refl }
        | inr e ↦ record {
          stands = rw e (h.0 e, tt);
          not_guessed = λ k. let empty = h.1 k in absurd (cc);
        }
      ]

  infer_navigation-GroundedIf :
      (snapshot : GraphSnapshot R) (overrides : CapabilityConfig) (safety : SafetyConfig R)
      → GroundedIf snapshot (infer_autonomous_navigation snapshot overrides safety)
  unfolding infer_autonomous_navigation
  infer_navigation-GroundedIf snapshot overrides safety =
      let entry =
        navigation_entry-GroundedIf snapshot overrides safety _
          (match_action-ActionStands snapshot overrides.navigation.action_name) in
      elim (Bool-cases overrides.navigation.enabled) [
        | inl e ↦ rw (e, infer_autonomous_navigation) entry
        | inr e ↦ rw (e, infer_autonomous_navigation) tt
      ]

  abbrev pub AllGrounded : GraphSnapshot R → List (CapabilityEntry R) → Type 0
  AllGrounded snapshot [] = Unit
  AllGrounded snapshot (e ∷ es) = IsGrounded snapshot e × AllGrounded snapshot es

  present-AllGrounded :
      (snapshot : GraphSnapshot R) (e : Option (CapabilityEntry R)) (es : List (CapabilityEntry R))
      → GroundedIf snapshot e
      → AllGrounded snapshot es
      → AllGrounded snapshot (present e es)
  present-AllGrounded snapshot none es h k = k
  present-AllGrounded snapshot (some e) es h k = (h, k)

  -- Every capability that is inferred of a snapshot resolves only interfaces that stand in it, each
  -- with a type that serves its key, and an ambiguous one resolves none: nothing is guessed.
  pub infer-AllGrounded :
      (safety : SafetyConfig R) (snapshot : GraphSnapshot R) (overrides : CapabilityConfig)
      → AllGrounded snapshot (infer safety snapshot overrides)
  unfolding infer
  infer-AllGrounded safety snapshot overrides =
      let visual = infer_visual_observation-GroundedIf snapshot overrides in
      present-AllGrounded snapshot _ _ (infer_motion-GroundedIf snapshot overrides safety) (
        present-AllGrounded snapshot _ _ (infer_navigation-GroundedIf snapshot overrides safety) (
          present-AllGrounded snapshot _ _ (infer_localization-GroundedIf snapshot overrides) (
            present-AllGrounded snapshot _ _ (infer_range_sensing-GroundedIf snapshot overrides) (
              present-AllGrounded snapshot _ _ visual (
                present-AllGrounded snapshot _ _
                  (infer_object_detection-GroundedIf snapshot overrides _ visual) tt)))))
