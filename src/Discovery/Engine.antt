-- ===== src/Discovery/Engine.antt =====
-- src/ros_mcp/discovery/engine.py and src/ros_mcp/capabilities/coordinator.py. A poll is one step with
-- the snapshot that the walk of the graph brings; the one callback of the engine is the coordinator's.
-- That `==` on the tuples of a snapshot is Python's is an argument.
use ros2_mcp_server.Base.{Bool, ◌&&◌, String, Option, none, some, List, [], ◌∷◌, if◌then◌else◌}
use ros2_mcp_server.Contracts.Config.{CapabilityConfig, SafetyConfig}
use ros2_mcp_server.Contracts.Discovery.{
  NodeInfo, TopicInfo, ServiceInfo, ActionInfo, GraphSnapshot, CapabilityEntry,
}
use ros2_mcp_server.Capabilities.Inference.{infer}
use ros2_mcp_server.Capabilities.Registry.{Registry, update}

-- Python's `==` on the tuples that are compared.
pub record Equality (R : Type 0) : Type 0 where
  pub same_nodes : List NodeInfo → List NodeInfo → Bool
  pub same_topics : List (TopicInfo R) → List (TopicInfo R) → Bool
  pub same_services : List ServiceInfo → List ServiceInfo → Bool
  pub same_actions : List ActionInfo → List ActionInfo → Bool
  pub same_frames : List String → List String → Bool
  pub same_entries : List (CapabilityEntry R) → List (CapabilityEntry R) → Bool

pub record Discovery (R : Type 0) : Type 0 where
  pub latest : GraphSnapshot R
  pub registry : Registry R

module _ {R : Type 0} where
  abbrev pub no_snapshot : R → GraphSnapshot R
  no_snapshot now = record {
    snapshot_version = 0;
    taken_at = now;
    nodes = [];
    topics = [];
    services = [];
    actions = [];
    tf_frames = [];
  }

  module _ (eq : Equality R) where
    unfoldable pub content_equal : GraphSnapshot R → GraphSnapshot R → Bool
    content_equal a b =
        eq.same_nodes a.nodes b.nodes
        && eq.same_topics a.topics b.topics
        && eq.same_services a.services b.services
        && eq.same_actions a.actions b.actions
        && eq.same_frames a.tf_frames b.tf_frames

    module _ (safety : SafetyConfig R) (overrides : CapabilityConfig) where
      -- CapabilityCoordinator._on_snapshot_changed
      unfoldable pub on_snapshot_changed : GraphSnapshot R → Registry R → Registry R
      on_snapshot_changed snapshot registry =
          (update eq.same_entries (infer safety snapshot overrides) registry).0

      -- CapabilityCoordinator.refresh_from_current_snapshot
      unfoldable pub refresh_from_current_snapshot : Discovery R → Discovery R
      refresh_from_current_snapshot d = record d {
        registry = on_snapshot_changed d.latest d.registry;
      }

      -- RclpyDiscoveryEngine.refresh_once, with the new snapshot.
      unfoldable pub refresh_once : GraphSnapshot R → Discovery R → Discovery R
      refresh_once new_snapshot d =
          if content_equal d.latest new_snapshot
          then record d { latest = new_snapshot }
          else record {
            latest = new_snapshot;
            registry = on_snapshot_changed new_snapshot d.registry;
          }

      -- The rounds of `_poll_loop`: a poll that raises is only logged.
      abbrev pub poll_loop : List (Option (GraphSnapshot R)) → Discovery R → Discovery R
      poll_loop [] d = d
      poll_loop (none ∷ rest) d = poll_loop rest d
      poll_loop (some snapshot ∷ rest) d = poll_loop rest (refresh_once snapshot d)
