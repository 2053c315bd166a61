-- ===== src/Mcp/Schemas.antt =====
-- src/ros_mcp/mcp/schemas.py: the eight tools. A description of a tool or of a field plays no part in
-- any decision and is left out, and so is `default`, which `check_schema` does not read.
use ros2_mcp_server.Base.{String, true, false, List, [], ◌∷◌, Option, none, some, ◌==◌, find}
use ros2_mcp_server.Number.{Number, nat}
use ros2_mcp_server.Contracts.Core.{Operation, CommandClass, read, motion}
use ros2_mcp_server.Validation.Schema.{
  Schema, schema, SchemaType, string, number, integer, boolean, array, object, Properties, no_more,
  property, no_items, items,
}

pub record McpToolSpec (R : Type 0) : Type 0 where
  pub name : String
  pub input_schema : Schema R
  pub command_class : CommandClass

pub record ToolDefinition (R : Type 0) : Type 0 where
  pub spec : McpToolSpec R
  pub operation : Operation
  pub required_capability_id : Option String

module _ {R : Type 0} ⦃n : Number R⦄ where
  -- A schema with a type alone.
  abbrev pub plain : SchemaType → Schema R
  plain ty = schema (some ty) no_more [] true no_items none none none none

  abbrev pub at_least : R → Schema R
  at_least lo = schema (some number) no_more [] true no_items none none (some lo) none

  abbrev pub between : R → R → Schema R
  between lo hi = schema (some number) no_more [] true no_items none none (some lo) (some hi)

  -- An object with "additionalProperties": False.
  abbrev pub closed : Properties R → List String → Schema R
  closed ps required = schema (some object) ps required false no_items none none none none

  abbrev pub direction_schema : Schema R
  direction_schema =
      schema (some string) no_more [] true no_items none
        (some ("forward" ∷ "backward" ∷ "left" ∷ "right" ∷ "rotate_left" ∷ "rotate_right" ∷ []))
        none none

  abbrev pub labels_schema : Schema R
  labels_schema = schema (some array) no_more [] true (items (plain string)) none none none none

  abbrev pub width_schema : Schema R
  width_schema = schema (some integer) no_more [] true no_items none none none (some (nat 1280))

  abbrev pub move_schema : Schema R
  move_schema =
      closed
        (property "direction" direction_schema (
          property "distance_m" (at_least (nat 0)) (
            property "angle_deg" (between (nat 0) (nat 360))
              (property "timeout_s" (at_least (n.ratio 1 10)) no_more))))
        ("direction" ∷ [])

  abbrev pub navigate_schema : Schema R
  navigate_schema =
      closed
        (property "x" (plain number) (
          property "y" (plain number)
            (property "yaw" (plain number) (property "frame" (plain string) no_more))))
        ("x" ∷ "y" ∷ [])

  abbrev pub get_capabilities_tool : ToolDefinition R
  get_capabilities_tool = record {
    spec = record {
      name = "robot.get_capabilities";
      input_schema = closed no_more [];
      command_class = read;
    };
    operation = Operation.get_capabilities;
    required_capability_id = none;
  }

  abbrev pub get_state_tool : ToolDefinition R
  get_state_tool = record {
    spec = record {
      name = "robot.get_state";
      input_schema = closed (property "frame" (plain string) no_more) [];
      command_class = read;
    };
    operation = Operation.get_state;
    required_capability_id = none;
  }

  abbrev pub move_tool : ToolDefinition R
  move_tool = record {
    spec = record { name = "robot.move"; input_schema = move_schema; command_class = motion };
    operation = Operation.move;
    required_capability_id = some "differential_drive_motion";
  }

  abbrev pub stop_tool : ToolDefinition R
  stop_tool = record {
    spec = record { name = "robot.stop"; input_schema = closed no_more []; command_class = motion };
    operation = Operation.stop;
    required_capability_id = some "differential_drive_motion";
  }

  abbrev pub navigate_tool : ToolDefinition R
  navigate_tool = record {
    spec = record {
      name = "robot.navigate";
      input_schema = navigate_schema;
      command_class = motion;
    };
    operation = Operation.navigate;
    required_capability_id = some "autonomous_navigation";
  }

  abbrev pub get_laser_scan_tool : ToolDefinition R
  get_laser_scan_tool = record {
    spec = record {
      name = "robot.get_laser_scan";
      input_schema = closed (property "include_raw_ranges" (plain boolean) no_more) [];
      command_class = read;
    };
    operation = Operation.get_laser_scan;
    required_capability_id = some "range_sensing";
  }

  abbrev pub get_camera_image_tool : ToolDefinition R
  get_camera_image_tool = record {
    spec = record {
      name = "robot.get_camera_image";
      input_schema = closed (property "max_width_px" width_schema no_more) [];
      command_class = read;
    };
    operation = Operation.get_camera_image;
    required_capability_id = some "visual_observation";
  }

  abbrev pub detect_objects_tool : ToolDefinition R
  detect_objects_tool = record {
    spec = record {
      name = "robot.detect_objects";
      input_schema = closed (property "labels" labels_schema no_more) [];
      command_class = read;
    };
    operation = Operation.detect_objects;
    required_capability_id = some "object_detection";
  }

  abbrev pub tool_definitions : List (ToolDefinition R)
  tool_definitions =
      get_capabilities_tool ∷ get_state_tool ∷ move_tool ∷ stop_tool ∷ navigate_tool
      ∷ get_laser_scan_tool ∷ get_camera_image_tool ∷ detect_objects_tool ∷ []

  -- TOOL_DEFINITIONS_BY_NAME.get(name)
  unfoldable pub tool_by_name : String → Option (ToolDefinition R)
  tool_by_name name = find (λ d. d.spec.name == name) tool_definitions
