-- ===== src/Discovery/UpToDate.antt =====
-- The registry of capabilities follows the ROS graph: the composition of discovery/engine.py,
-- capabilities/coordinator.py, inference.py and registry.py.
use ros2_mcp_server.Base.{
  Option, none, some, ℕ, ◌≡◌, refl, sym, ap, ◌∙◌, true, Bool-cases, inl, inr, String, List, [], ◌∷◌,
  arith,
}
use ros2_mcp_server.Contracts.Config.{CapabilityConfig, SafetyConfig}
use ros2_mcp_server.Contracts.Discovery.{
  NodeInfo, TopicInfo, ServiceInfo, ActionInfo, GraphSnapshot, CapabilityEntry,
}
use ros2_mcp_server.Capabilities.Inference.{infer}
use ros2_mcp_server.Capabilities.Ontology.{
  infer_differential_drive_motion, infer_autonomous_navigation, infer_localization,
  infer_range_sensing, infer_visual_observation, infer_object_detection,
}
use ros2_mcp_server.Capabilities.Registry.{Registry, update}
use ros2_mcp_server.Discovery.Engine.{
  Equality, Discovery, content_equal, on_snapshot_changed, refresh_from_current_snapshot,
  refresh_once, poll_loop,
}

-- What the comparisons of Python say of values that are texts, numbers and None.
pub record IsSound {R : Type 0} (eq : Equality R) : Type 0 where
  pub nodes : {a b : List NodeInfo} → eq.same_nodes a b ≡ true → a ≡ b
  pub topics : {a b : List (TopicInfo R)} → eq.same_topics a b ≡ true → a ≡ b
  pub services : {a b : List ServiceInfo} → eq.same_services a b ≡ true → a ≡ b
  pub actions : {a b : List ActionInfo} → eq.same_actions a b ≡ true → a ≡ b
  pub frames : {a b : List String} → eq.same_frames a b ≡ true → a ≡ b
  pub entries : {a b : List (CapabilityEntry R)} → eq.same_entries a b ≡ true → a ≡ b

module _ {R : Type 0} (safety : SafetyConfig R) (overrides : CapabilityConfig) where
  -- The registry holds what is inferred of the latest snapshot.
  abbrev pub IsUpToDate : Discovery R → Type 0
  IsUpToDate d = d.registry.entries ≡ infer safety d.latest overrides

module _ {R : Type 0} (eq : Equality R) (sound : IsSound eq) (safety : SafetyConfig R)
    (overrides : CapabilityConfig) where
  update-entries :
      (es : List (CapabilityEntry R)) (r : Registry R)
      → ((update eq.same_entries es r).0).entries ≡ es
  unfolding update
  update-entries es r = elim (Bool-cases (eq.same_entries es r.entries)) [
    | inl e ↦ rw e (sym (sound.entries e))
    | inr e ↦ rw e refl
  ]

  -- Inference reads neither the version nor the time of a snapshot.
  infer-restamped :
      (version : ℕ) (now : R) (b : GraphSnapshot R)
      → infer safety (record b { snapshot_version = version; taken_at = now }) overrides
        ≡ infer safety b overrides
  unfolding infer infer_differential_drive_motion infer_autonomous_navigation infer_localization
      infer_range_sensing infer_visual_observation infer_object_detection
  infer-restamped version now b = refl

  restamped :
      (a b : GraphSnapshot R)
      → content_equal eq a b ≡ true
      → a ≡ record b { snapshot_version = a.snapshot_version; taken_at = a.taken_at }
  unfolding content_equal
  restamped a b h =
      let n : a.nodes ≡ b.nodes = sound.nodes (ground arith) in
      let t : a.topics ≡ b.topics = sound.topics (ground arith) in
      let s : a.services ≡ b.services = sound.services (ground arith) in
      let c : a.actions ≡ b.actions = sound.actions (ground arith) in
      let f : a.tf_frames ≡ b.tf_frames = sound.frames (ground arith) in
      λ i. record {
        snapshot_version = a.snapshot_version;
        taken_at = a.taken_at;
        nodes = n i;
        topics = t i;
        services = s i;
        actions = c i;
        tf_frames = f i;
      }

  infer-content :
      (a b : GraphSnapshot R)
      → content_equal eq a b ≡ true
      → infer safety a overrides ≡ infer safety b overrides
  infer-content a b h =
      ap (λ x. infer safety x overrides) (restamped a b h)
      ∙ infer-restamped a.snapshot_version a.taken_at b

  refresh_once-IsUpToDate :
      (snapshot : GraphSnapshot R) (d : Discovery R)
      → IsUpToDate safety overrides d
      → IsUpToDate safety overrides (refresh_once eq safety overrides snapshot d)
  unfolding refresh_once on_snapshot_changed
  refresh_once-IsUpToDate snapshot d h = elim (Bool-cases (content_equal eq d.latest snapshot)) [
    | inl e ↦ rw e (h ∙ infer-content d.latest snapshot e)
    | inr e ↦ rw e (update-entries (infer safety snapshot overrides) d.registry)
  ]

  poll_loop-IsUpToDate :
      (snapshots : List (Option (GraphSnapshot R))) (d : Discovery R)
      → IsUpToDate safety overrides d
      → IsUpToDate safety overrides (poll_loop eq safety overrides snapshots d)
  poll_loop-IsUpToDate [] d h = h
  poll_loop-IsUpToDate (none ∷ rest) d h = poll_loop-IsUpToDate rest d h
  poll_loop-IsUpToDate (some snapshot ∷ rest) d h =
      poll_loop-IsUpToDate rest (refresh_once eq safety overrides snapshot d)
        (refresh_once-IsUpToDate snapshot d h)

  -- Where the comparisons of Python are sound, and under a configuration that stays, once the
  -- capabilities have been refreshed from the current snapshot, the registry holds after any polls
  -- what is inferred of the latest snapshot, although a poll that finds the graph unchanged does not
  -- tell the registry.
  pub poll_loop-IsUpToDate_from :
      (snapshots : List (Option (GraphSnapshot R))) (d : Discovery R)
      → IsUpToDate safety overrides (
          poll_loop eq safety overrides snapshots
            (refresh_from_current_snapshot eq safety overrides d))
  unfolding refresh_from_current_snapshot on_snapshot_changed
  poll_loop-IsUpToDate_from snapshots d =
      poll_loop-IsUpToDate snapshots (refresh_from_current_snapshot eq safety overrides d)
        (update-entries (infer safety d.latest overrides) d.registry)
