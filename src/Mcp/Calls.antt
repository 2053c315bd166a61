-- ===== src/Mcp/Calls.antt =====
-- What mcp/tool_provider.py guarantees of a call: nothing that validation refuses reaches the
-- execution manager, and an accepted move reaches it as one that the motion adapter takes.
use ros2_mcp_server.Base.{
  String, ◌≡◌, refl, sym, ◌∙◌, ap, false, some, ◌==◌, arith, Except, ok, All, find-All,
  Option-cases, inl, inr,
}
use ros2_mcp_server.Number.{Number}
use ros2_mcp_server.Json.{Fields, obj}
use ros2_mcp_server.Contracts.Core.{
  Operation, ErrorCode, ToolError, ValidationOutcome, SemanticCommand,
}
use ros2_mcp_server.Contracts.Results.{Status}
use ros2_mcp_server.Validation.Schema.{check_schema}
use ros2_mcp_server.Validation.Engine.{validate, validate_tool, semantic_check}
use ros2_mcp_server.Mcp.Schemas.{ToolDefinition, tool_definitions, tool_by_name}
use ros2_mcp_server.Mcp.Provider.{Call, answered, submitted, CallContext, call_tool, handle_call}
use ros2_mcp_server.Commands.Factory.{result_type_by_operation}
use ros2_mcp_server.Commands.Validated.{AsAsked}
use ros2_mcp_server.Safety.Decision.{AreLimits}
use ros2_mcp_server.Motion.Ready.{IsReady}
use ros2_mcp_server.Execution.ErrorResults.{build_error_result}
use ros2_mcp_server.Execution.Manager.Handlers.{Manager}
use ros2_mcp_server.Execution.Manager.Steps.{submit}

abbrev IsNamed : Operation → Type 0
IsNamed operation = (ty : _) × (result_type_by_operation operation ≡ ok ty)

module _ {R : Type 0} where
  -- A failed result with the error code INVALID_ARGUMENT.
  abbrev pub IsRefusal : Except (Call R) → Type 0
  IsRefusal (ok (answered r)) =
      (r.status ≡ Status.failed)
      × ((e : ToolError R) × (r.error ≡ some e) × (e.code ≡ ErrorCode.invalid_argument))
  IsRefusal _ = ⊥

tools-IsNamed :
    (R : Type 0) ⦃n : Number R⦄
    → All (λ (d : ToolDefinition R). IsNamed d.operation) tool_definitions
unfolding result_type_by_operation
tools-IsNamed R = (
  (_, refl),
  ((_, refl), ((_, refl), ((_, refl), ((_, refl), ((_, refl), ((_, refl), ((_, refl), tt))))))),
)

module _ {R : Type 0} ⦃n : Number R⦄ where
  tool_by_name-IsNamed :
      (name : String) {d : ToolDefinition R} → tool_by_name name ≡ some d → IsNamed d.operation
  unfolding tool_by_name
  tool_by_name-IsNamed name e =
      find-All (λ d. IsNamed d.operation) (λ d. d.spec.name == name) tool_definitions
        (tools-IsNamed R) e

  record Refuses (o : ValidationOutcome R) : Type 0 where
    why : ToolError R
    given : o.error ≡ some why
    code : why.code ≡ ErrorCode.invalid_argument

  validate_tool-Refuses :
      (d : ToolDefinition R) (tool_name : String) (arguments : Fields R)
      → (validate_tool d tool_name arguments).passed ≡ false
      → Refuses (validate_tool d tool_name arguments)
  unfolding validate_tool
  validate_tool-Refuses d tool_name arguments h =
      elim (Option-cases (check_schema d.spec.input_schema (obj arguments))) [
        | inr (e, p) ↦ rw (p, validate_tool) (record { why = _; given = refl; code = refl })
        | inl p ↦ elim (Option-cases (semantic_check tool_name arguments)) [
          | inr (e, q) ↦ rw (p, q, validate_tool) (record { why = _; given = refl; code = refl })
          | inl q ↦ absurd (ground arith)
        ]
      ]

  call_tool-refused :
      (context : CallContext R) (d : ToolDefinition R) (tool_name : String) (arguments : Fields R)
      (session_id : String) (m : Manager R)
      → IsNamed d.operation
      → tool_by_name tool_name ≡ some d
      → (validate tool_name arguments).passed ≡ false
      → ((call_tool context d tool_name arguments session_id m).1 ≡ m)
        × IsRefusal (call_tool context d tool_name arguments session_id m).0
  unfolding call_tool validate build_error_result
  call_tool-refused context d tool_name arguments session_id m (ty, named) e h =
      let same : validate tool_name arguments ≡ validate_tool d tool_name arguments =
        rw (e, validate) refl in
      let v =
        validate_tool-Refuses d tool_name arguments
          (sym (ap (λ (o : ValidationOutcome R). o.passed) same) ∙ h) in
      rw (same, sym (ap (λ (o : ValidationOutcome R). o.passed) same) ∙ h, v.given, named)
        (refl, (refl, (_, refl, v.code)))

  -- A call whose tool is unknown or whose arguments validation refuses leaves the execution manager
  -- as it was, and is answered at once by a failed result with the code INVALID_ARGUMENT.
  pub handle_call-refused :
      (context : CallContext R) (tool_name : String) (arguments : Fields R) (session_id : String)
      (m : Manager R)
      → (validate tool_name arguments).passed ≡ false
      → ((handle_call context tool_name arguments session_id m).1 ≡ m)
        × IsRefusal (handle_call context tool_name arguments session_id m).0
  unfolding handle_call
  handle_call-refused context tool_name arguments session_id m h =
      elim (Option-cases (tool_by_name {R = R} tool_name)) [
        | inl e ↦ rw (e, handle_call) (refl, (refl, (_, refl, refl)))
        | inr (d, e) ↦
            rw (e, handle_call)
              (call_tool-refused context d tool_name arguments session_id m
                (tool_by_name-IsNamed tool_name e) e h)
      ]

  -- The task that a call of `robot.move` led to, with the command that the factory built.
  pub record MoveIsSubmitted (context : CallContext R) (arguments : Fields R) (session_id : String)
      (m : Manager R) : Type 0 where
    pub command : SemanticCommand R
    pub ready : IsReady command
    pub as_asked : AsAsked arguments ready.target
    pub limits : AreLimits context.safety_config ready.constraints
    pub operation : command.operation ≡ Operation.move
    pub command_id : command.command_id ≡ context.fresh_id
    pub robot_id : command.robot_id ≡ context.factory_robot_id
    pub session : command.session_id ≡ session_id
    pub waits :
        handle_call context "robot.move" arguments session_id m
        ≡ (ok (submitted (submit command context.start m).1), (submit command context.start m).0)
