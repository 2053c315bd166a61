-- ===== src/Execution/Planner.antt =====
-- src/ros_mcp/execution/planner.py: which backend serves an operation.
pub mod Choice
use ros2_mcp_server.Base.{
  Bool, true, false, ◌&&◌, not, List, Option, none, some, if◌then◌else◌, is_none,
}
use ros2_mcp_server.Contracts.Core.{Operation, Confidence, ambiguous}
use ros2_mcp_server.Contracts.Discovery.{CapabilityEntry}
use ros2_mcp_server.Capabilities.Registry.{find_entry}

pub data Backend : Type 0 where
  motion_backend navigation_backend : Backend

-- Which backends the planner was given, and what the navigation backend's `is_available` says.
pub record Backends : Type 0 where
  pub has_motion : Bool
  pub has_navigation : Bool
  pub navigation_available : Bool

abbrev pub is_ambiguous : Confidence → Bool
is_ambiguous ambiguous = true
is_ambiguous _ = false

abbrev when : Bool → Backend → Option Backend
when c b = if c then some b else none

module _ {R : Type 0} where
  abbrev pub is_usable : Option (CapabilityEntry R) → Bool
  is_usable none = false
  is_usable (some e) = not (is_ambiguous e.confidence)

  select_motion : Backends → List (CapabilityEntry R) → Option Backend
  select_motion backends entries =
      if is_usable (find_entry "differential_drive_motion" entries)
      then when backends.has_motion motion_backend
      else none

  select_navigation : Backends → List (CapabilityEntry R) → Option Backend
  select_navigation backends entries =
      if not (is_usable (find_entry "autonomous_navigation" entries))
      then none
      else if is_none (find_entry "localization" entries)
      then none
      else when (backends.has_navigation && backends.navigation_available) navigation_backend

  unfoldable pub select_backend : Backends → Operation → List (CapabilityEntry R) → Option Backend
  unfolding select_motion select_navigation
  select_backend backends Operation.move entries = select_motion backends entries
  select_backend backends Operation.stop entries = select_motion backends entries
  select_backend backends Operation.navigate entries = select_navigation backends entries
  select_backend backends _ entries = none
