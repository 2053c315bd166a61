-- ===== src/Mcp/Provider.antt =====
-- src/ros_mcp/mcp/tool_provider.py: which tools are offered, and what a call leads to. The call ends
-- where it awaits `submit`: the manager then holds the task whose result the call returns.
use ros2_mcp_server.Base.{
  ℕ, String, Bool, true, not, List, [], ◌∷◌, Option, none, some, if◌then◌else◌, Dict, get, put,
  Except, ok, raised, assertion_error, ◌>>=◌, keep, map,
}
use ros2_mcp_server.Number.{Number, nat}
use ros2_mcp_server.Json.{Fields, text}
use ros2_mcp_server.Contracts.Core.{ErrorCode, ToolError, plain_error}
use ros2_mcp_server.Contracts.Results.{ToolResult, Status, base}
use ros2_mcp_server.Contracts.Config.{SafetyConfig, TimeoutConfig}
use ros2_mcp_server.Contracts.Discovery.{CapabilityEntry}
use ros2_mcp_server.Validation.Engine.{validate}
use ros2_mcp_server.Mcp.Schemas.{McpToolSpec, ToolDefinition, tool_definitions, tool_by_name}
use ros2_mcp_server.Commands.Factory.{CreateRequest, create, result_type_by_operation}
use ros2_mcp_server.Execution.ErrorResults.{build_error_result}
use ros2_mcp_server.Execution.Planner.{is_usable}
use ros2_mcp_server.Execution.Manager.Handlers.{Manager}
use ros2_mcp_server.Execution.Manager.Steps.{submit}

-- Where a call of a tool stands: answered at once, or waiting for task `i` of the manager.
pub data Call (R : Type 0) : Type 0 where
  answered : ToolResult R → Call R
  submitted : ℕ → Call R

-- What the provider's parts give to one call: the configuration, the factory's robot, the fresh id
-- and the times.
pub record CallContext (R : Type 0) : Type 0 where
  pub config_robot_id : String
  pub factory_robot_id : String
  pub safety_config : SafetyConfig R
  pub timeout_config : TimeoutConfig R
  pub fresh_id : String
  pub now : R
  pub start : R

module _ {R : Type 0} where
  -- `{e.capability_id: e for e in entries}`: a later entry takes the place of an earlier one.
  abbrev pub collect :
      Dict (CapabilityEntry R) → List (CapabilityEntry R) → Dict (CapabilityEntry R)
  collect d [] = d
  collect d (e ∷ es) = collect (put e.capability_id e d) es

  abbrev pub is_offered : Dict (CapabilityEntry R) → ToolDefinition R → Bool
  is_offered by_id d = elim d.required_capability_id [
    | none ↦ true
    | some id ↦ is_usable (get id by_id)
  ]

module _ {R : Type 0} ⦃n : Number R⦄ where
  unfoldable pub current_tools : List (CapabilityEntry R) → List (McpToolSpec R)
  current_tools entries =
      map (λ (d : ToolDefinition R). d.spec)
        (keep (is_offered (collect [] entries)) tool_definitions)

  unknown_tool_result : CallContext R → String → ToolResult R
  unknown_tool_result context tool_name = record {
    status = Status.failed;
    command_id = "";
    robot_id = context.config_robot_id;
    duration_sec = nat 0;
    error = some (
        plain_error ErrorCode.invalid_argument
          (text "unknown tool '" ∷ text tool_name ∷ text "'" ∷ []));
    payload = base;
  }

  -- The answer to a call whose arguments validation refused.
  refusal : CallContext R → ToolDefinition R → Option (ToolError R) → Except (Call R)
  refusal context definition none = raised assertion_error
  refusal context definition (some e) = do
    expected ← result_type_by_operation definition.operation
    ok (answered (build_error_result expected "" context.config_robot_id (nat 0) e))

  abbrev pub request_of :
      CallContext R → ToolDefinition R → String → Fields R → String → CreateRequest R
  request_of context definition tool_name arguments session_id = record {
    tool_name = tool_name;
    operation = definition.operation;
    command_class = definition.spec.command_class;
    arguments = arguments;
    session_id = session_id;
    safety_config = context.safety_config;
    timeout_config = context.timeout_config;
    confidence = none;
    fresh_id = context.fresh_id;
    now = context.now;
  }

  -- `create`, then `submit`.
  unfoldable pub hand_over :
      CallContext R → CreateRequest R → Manager R → Except (Call R) × Manager R
  hand_over context request m = elim (create context.factory_robot_id request) [
    | raised e ↦ (raised e, m)
    | ok command ↦ let (m', i) = submit command context.start m in (ok (submitted i), m')
  ]

  unfoldable pub call_tool :
      CallContext R
      → ToolDefinition R
      → String
      → Fields R
      → String
      → Manager R
      → Except (Call R) × Manager R
  unfolding refusal
  call_tool context definition tool_name arguments session_id m =
      let validation = validate tool_name arguments in
      if not validation.passed
      then (refusal context definition validation.error, m)
      else hand_over context (request_of context definition tool_name arguments session_id) m

  unfoldable pub handle_call :
      CallContext R → String → Fields R → String → Manager R → Except (Call R) × Manager R
  unfolding unknown_tool_result
  handle_call context tool_name arguments session_id m = elim (tool_by_name tool_name) [
    | none ↦ (ok (answered (unknown_tool_result context tool_name)), m)
    | some definition ↦ call_tool context definition tool_name arguments session_id m
  ]
