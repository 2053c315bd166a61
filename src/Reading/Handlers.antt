-- ===== src/Reading/Handlers.antt =====
-- src/ros_mcp/mcp/read_handlers.py: the handlers of robot.get_state, robot.get_capabilities and
-- robot.get_laser_scan, with `get_laser_scan_summary` of adapters/perception/perception_adapter.py.
use ros2_mcp_server.Base.{
  Bool, true, false, not, Option, none, some, ◌==◌, if◌then◌else◌, Except, ok, ◌>>=◌,
}
use ros2_mcp_server.Number.{Number, nat}
use ros2_mcp_server.Json.{
  Json, lookup, null, bool, num, str, arr, obj, nil, cons, end, field, optional_text,
}
use ros2_mcp_server.Contracts.Core.{SemanticCommand}
use ros2_mcp_server.Contracts.Results.{CommandSummary, ToolResult}
use ros2_mcp_server.Reading.{Sources, resolve_robot_state, resolve_capabilities, resolve_laser_scan}

module _ {R : Type 0} ⦃n : Number R⦄ where
  open n use {le, minus}

  -- bool(value)
  abbrev pub truth : Json R → Bool
  truth null = false
  truth (bool b) = b
  truth (num a) = not (is_zero a)
    where
      is_zero : R → Bool
      is_zero a = if le a (nat 0) then le (nat 0) a else false
  truth (str s) = not (s == "")
  truth (arr nil) = false
  truth (arr (cons v vs)) = true
  truth (obj end) = false
  truth (obj (field k v fs)) = true

  -- bool(d.get(key, False))
  abbrev pub flag : Option (Json R) → Bool
  flag none = false
  flag (some v) = truth v

  -- dataclasses.replace
  abbrev pub stamped : SemanticCommand R → R → ToolResult R → ToolResult R
  stamped command duration_sec result = record result {
    command_id = command.command_id;
    duration_sec = duration_sec;
  }

  -- The summary of the active command, unless it is this one.
  abbrev pub active_summary : SemanticCommand R → Option (SemanticCommand R) → Option CommandSummary
  active_summary command none = none
  active_summary command (some active) =
      if active.command_id == command.command_id
      then none
      else some (record {
        command_id = active.command_id;
        operation = active.operation;
        execution_state = active.execution_state;
      })

module _ {R V M : Type 0} ⦃n : Number R⦄ where
  open n use {minus}

  -- The duration is the time from `start` to `later`. A frame that is no text is ill-typed.
  unfoldable pub handle_get_state :
      Sources R V M → R → R → Option (SemanticCommand R) → SemanticCommand R → Except (ToolResult R)
  handle_get_state s start later active command =
      optional_text (lookup "frame" command.provenance.raw_arguments) >>= (λ frame. ok (
        resolve_robot_state s command.robot_id command.command_id (minus later start) frame
          (active_summary command active)))

  unfoldable pub handle_get_capabilities : Sources R V M → R → R → SemanticCommand R → ToolResult R
  handle_get_capabilities s start later command =
      resolve_capabilities s command.robot_id command.command_id (minus later start)

  unfoldable pub get_laser_scan_summary : Sources R V M → Bool → ToolResult R
  get_laser_scan_summary s include_raw =
      resolve_laser_scan s s.robot_id "" (n.ratio 0 1) include_raw

  unfoldable pub handle_get_laser_scan : Sources R V M → R → R → SemanticCommand R → ToolResult R
  handle_get_laser_scan s start later command = stamped command (minus later start) (
      get_laser_scan_summary s
        (flag (lookup "include_raw_ranges" command.provenance.raw_arguments)))
