-- ===== src/Capabilities/Inference.antt =====
-- src/ros_mcp/capabilities/inference.py.
use ros2_mcp_server.Base.{List, [], ◌∷◌, Option, none, some}
use ros2_mcp_server.Contracts.Config.{CapabilityConfig, SafetyConfig}
use ros2_mcp_server.Contracts.Discovery.{GraphSnapshot, CapabilityEntry}
use ros2_mcp_server.Capabilities.Ontology.{
  infer_differential_drive_motion, infer_autonomous_navigation, infer_localization,
  infer_range_sensing, infer_visual_observation, infer_object_detection,
}

module _ {R : Type 0} where
  -- `if x is not None: entries.append(x)`, seen from the front of the list.
  abbrev pub present :
      Option (CapabilityEntry R) → List (CapabilityEntry R) → List (CapabilityEntry R)
  present none rest = rest
  present (some e) rest = e ∷ rest

  unfoldable pub infer :
      SafetyConfig R → GraphSnapshot R → CapabilityConfig → List (CapabilityEntry R)
  infer safety snapshot overrides =
      let visual = infer_visual_observation snapshot overrides in
      present (infer_differential_drive_motion snapshot overrides safety) (
        present (infer_autonomous_navigation snapshot overrides safety) (
          present (infer_localization snapshot overrides) (
            present (infer_range_sensing snapshot overrides)
              (present visual (present (infer_object_detection visual overrides) [])))))
