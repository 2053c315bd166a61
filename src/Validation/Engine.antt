-- ===== src/Validation/Engine.antt =====
-- src/ros_mcp/validation/engine.py: `DefaultValidationEngine.validate`.
use ros2_mcp_server.Base.{
  String, Bool, true, false, ◌&&◌, List, [], ◌∷◌, Option, none, some, ◌==◌, if◌then◌else◌, contains,
}
use ros2_mcp_server.Number.{Number}
use ros2_mcp_server.Json.{Json, str, obj, Fields, Message, text, lookup, is_missing}
use ros2_mcp_server.Contracts.Core.{ErrorCode, ValidationOutcome}
use ros2_mcp_server.Validation.Schema.{check_schema}
use ros2_mcp_server.Mcp.Schemas.{tool_by_name, ToolDefinition}

abbrev pub translation_directions : List String
translation_directions = "forward" ∷ "backward" ∷ "left" ∷ "right" ∷ []

abbrev pub rotation_directions : List String
rotation_directions = "rotate_left" ∷ "rotate_right" ∷ []

module _ {R : Type 0} where
  -- `direction in names`, for a value that need not be a string.
  abbrev pub is_in : Option (Json R) → List String → Bool
  is_in (some (str s)) names = contains names s
  is_in _ names = false

  direction_text : Option (Json R) → String
  direction_text (some (str s)) = s
  direction_text _ = ""

  missing_for : String → Option (Json R) → Message R
  unfolding direction_text
  missing_for key direction =
      text key
      ∷ text " is required when direction is '"
      ∷ text (direction_text direction)
      ∷ text "'"
      ∷ []

  semantic_check_move : Option (Json R) → Fields R → Option (Message R)
  unfolding missing_for
  semantic_check_move direction arguments =
      if is_in direction translation_directions && is_missing (lookup "distance_m" arguments)
      then some (missing_for "distance_m" direction)
      else if is_in direction rotation_directions && is_missing (lookup "angle_deg" arguments)
      then some (missing_for "angle_deg" direction)
      else none

  unfoldable pub semantic_check : String → Fields R → Option (Message R)
  unfolding semantic_check_move
  semantic_check tool_name arguments =
      if tool_name == "robot.move"
      then semantic_check_move (lookup "direction" arguments) arguments
      else none

  invalid : String → Fields R → Message R → ValidationOutcome R
  invalid tool_name arguments message = record {
    passed = false;
    error = some (record {
      code = ErrorCode.invalid_argument;
      message = message;
      details = ("tool_name", str tool_name) ∷ ("arguments", obj arguments) ∷ [];
    });
  }

  unknown_tool : String → ValidationOutcome R
  unknown_tool tool_name = record {
    passed = false;
    error = some (record {
      code = ErrorCode.invalid_argument;
      message = text "unknown tool '" ∷ text tool_name ∷ text "'" ∷ [];
      details = ("tool_name", str tool_name) ∷ [];
    });
  }

module _ {R : Type 0} ⦃n : Number R⦄ where
  unfoldable pub validate_tool : ToolDefinition R → String → Fields R → ValidationOutcome R
  unfolding invalid
  validate_tool definition tool_name arguments =
      elim (check_schema definition.spec.input_schema (obj arguments)) [
        | some e ↦ invalid tool_name arguments e
        | none ↦ elim (semantic_check tool_name arguments) [
          | some e ↦ invalid tool_name arguments e
          | none ↦ record { passed = true; error = none }
        ]
      ]

  unfoldable pub validate : String → Fields R → ValidationOutcome R
  unfolding validate_tool unknown_tool
  validate tool_name arguments = elim (tool_by_name tool_name) [
    | none ↦ unknown_tool tool_name
    | some definition ↦ validate_tool definition tool_name arguments
  ]
