-- ===== src/Execution/Manager/Handlers.antt =====
-- The state of `DefaultExecutionManager` and the stretches of `_execute` between its awaits.
use ros2_mcp_server.Base.{
  ℕ, String, Bool, true, false, List, [], ◌∷◌, Option, none, some, ◌==◌, ◌==ℕ◌, if◌then◌else◌, Dict,
  get, pop, Except, ok, raised, Exception,
}
use ros2_mcp_server.Number.{Number}
use ros2_mcp_server.Json.{text, exception}
use ros2_mcp_server.Contracts.Core.{
  Operation, operation_value, CommandClass, ExecutionState, ErrorCode, ToolError, plain_error,
  Pose2D, SemanticCommand,
}
use ros2_mcp_server.Contracts.Results.{ToolResult, Status, stopped}
use ros2_mcp_server.Contracts.Discovery.{CapabilityEntry}
use ros2_mcp_server.Contracts.Config.{SafetyConfig}
use ros2_mcp_server.Safety.{SafetyEngine}
use ros2_mcp_server.Execution.ErrorResults.{build_error_result}
use ros2_mcp_server.Execution.Planner.{Backend, Backends}

-- cancellation.py: SimpleCancellationToken.
pub record Token (R : Type 0) : Type 0 where
  pub cancelled : Bool
  pub deadline_monotonic : R

-- Where a task stands: before its first statement, at an await, or with a result.
pub data Phase (R : Type 0) : Type 0 where
  created : Phase R
  awaiting_read : Phase R
  awaiting_pose : Phase R
  awaiting_backend : Backend → Phase R
  awaiting_motion_stop : Option String → Phase R
  awaiting_cancel_all : Option String → Option (Pose2D R) → Phase R
  done : ToolResult R → Phase R

-- The command is the task's own: a command that is submitted again after its task has settled is a
-- new one here, where the source goes on to write the one object. The program does not do that, since
-- each call of a tool submits the command that it has just created.
pub record Task (R : Type 0) : Type 0 where
  pub command : SemanticCommand R
  pub start : R  -- the time that the clock has when the task first runs, given with the submission
  pub token : Option (Token R)
  pub phase : Phase R
  pub settled : Bool  -- whether the `finally` of its `submit` has run

pub record Manager (R : Type 0) : Type 0 where
  pub tasks : ℕ → Option (Task R)
  pub next : ℕ
  pub in_flight : Dict ℕ
  pub tokens : Dict ℕ
  pub active_commands : Dict ℕ
  pub progress_callbacks : Dict (List ℕ)
  pub safety : SafetyEngine R

-- What the manager reads from the other components when a step reaches it.
pub record World (R : Type 0) : Type 0 where
  pub handlers : Operation → Bool  -- operation in read_handlers
  pub backends : Backends
  pub entries : List (CapabilityEntry R)  -- of the registry
  pub config : SafetyConfig R
  pub checked_at : R  -- time.monotonic() in the rate limit
  pub planned_at : R  -- time.monotonic() for the deadline
  pub finished_at : R  -- time.monotonic() in duration()

-- What came of the awaited call of a backend.
pub data Outcome (R : Type 0) : Type 0 where
  returned : ToolResult R → Outcome R
  timed_out : Outcome R
  threw : Exception → Outcome R

abbrev pub is_read : CommandClass → Bool
is_read CommandClass.read = true
is_read _ = false

abbrev pub is_success : Status → Bool
is_success Status.succeeded = true
is_success _ = false

-- self._active_commands.get(robot_id) is command
abbrev pub refers_to : Option ℕ → ℕ → Bool
refers_to none i = false
refers_to (some j) i = j ==ℕ i

module _ {R : Type 0} where
  abbrev pub set_task : ℕ → Task R → Manager R → Manager R
  set_task i t m = record m { tasks = λ j. if j ==ℕ i then some t else m.tasks j }

  abbrev pub with_state : ExecutionState → Phase R → Task R → Task R
  with_state st ph t = record t { command = record t.command { execution_state = st }; phase = ph }

  -- SUCCEEDED if result.status == "succeeded" else FAILED.
  abbrev pub end_state : ToolResult R → ExecutionState
  end_state r = if is_success r.status then ExecutionState.succeeded else ExecutionState.failed

  abbrev pub cancel_task : Task R → Task R
  cancel_task t = elim t.token [
    | none ↦ t
    | some token ↦ record t { token = some (record token { cancelled = true }) }
  ]

  -- token.cancel(), through the reference to the task that holds the token.
  unfoldable pub cancel_token : ℕ → Manager R → Manager R
  cancel_token i m = elim (m.tasks i) [ none ↦ m | some t ↦ set_task i (cancel_task t) m ]

  -- The `finally` of `_execute_motion`.
  unfoldable pub release : ℕ → Task R → Manager R → Manager R
  release i t m = record m {
    tokens = pop t.command.command_id m.tokens;
    active_commands =
        if refers_to (get t.command.robot_id m.active_commands) i
        then pop t.command.robot_id m.active_commands
        else m.active_commands;
  }

  -- The command that `_handle_stop` cancels: the active one of the robot, unless it is the stop.
  abbrev pub other_id : SemanticCommand R → Option (Task R) → Option String
  other_id c none = none
  other_id c (some u) =
      if u.command.command_id == c.command_id then none else some u.command.command_id

  abbrev pub active_task : Manager R → String → Option (Task R)
  active_task m robot_id = elim (get robot_id m.active_commands) [
    | none ↦ none
    | some j ↦ m.tasks j
  ]

  unfoldable pub cancel_by_id : Option String → Manager R → Manager R
  cancel_by_id none m = m
  cancel_by_id (some command_id) m = elim (get command_id m.tokens) [
    | none ↦ m
    | some j ↦ cancel_token j m
  ]

module _ {R : Type 0} ⦃n : Number R⦄ where
  open n use {plus, minus}

  abbrev pub duration : World R → Task R → R
  duration w t = minus w.finished_at t.start

  unfoldable pub error_result : World R → Task R → ToolError R → ToolResult R
  error_result w t e =
      build_error_result t.command.expected_result_type t.command.command_id t.command.robot_id
        (duration w t) e

  -- `except Exception` in `_execute`.
  unfoldable pub crash : World R → ℕ → Task R → Exception → Manager R → Manager R
  crash w i t e m =
      set_task i
        (with_state ExecutionState.failed
          (done (
            error_result w t
              (plain_error ErrorCode.internal_error (text "internal error: " ∷ exception e ∷ []))))
          t)
        m

  -- The first stretch of `_execute_read`, up to the handler.
  unfoldable pub begin_read : World R → ℕ → Task R → Manager R → Manager R
  begin_read w i t m =
      if w.handlers t.command.operation
      then set_task i (with_state ExecutionState.executing awaiting_read t) m
      else set_task i
          (with_state ExecutionState.failed
            (done (
              error_result w t (
                plain_error ErrorCode.internal_error (
                  text "no handler registered for "
                  ∷ text (operation_value t.command.operation)
                  ∷ []))))
            t)
          m

  -- The first stretch of `_execute`.
  unfoldable pub begin : World R → ℕ → Task R → Manager R → Manager R
  begin w i t m =
      if is_read t.command.command_class
      then begin_read w i t m
      else set_task i (with_state ExecutionState.safety_check awaiting_pose t) m

  unfoldable pub end_read : World R → ℕ → Task R → Except (ToolResult R) → Manager R → Manager R
  end_read w i t (ok r) m = set_task i (with_state (end_state r) (done r) t) m
  end_read w i t (raised e) m = crash w i t e m

  stop_result : World R → Task R → Option String → Option (Pose2D R) → ToolResult R
  stop_result w t cancelled_id final_pose = record {
    status = Status.succeeded;
    command_id = t.command.command_id;
    robot_id = t.command.robot_id;
    duration_sec = duration w t;
    error = none;
    payload = stopped (record { cancelled_command_id = cancelled_id; final_pose = final_pose });
  }

  unfoldable pub finish_stop :
      World R → ℕ → Task R → Option String → Option (Pose2D R) → Manager R → Manager R
  unfolding stop_result
  finish_stop w i t cancelled_id final_pose m =
      set_task i
        (with_state ExecutionState.succeeded (done (stop_result w t cancelled_id final_pose)) t) m

  -- `_handle_stop` after the motion backend has stopped.
  unfoldable pub stop_goals :
      World R → ℕ → Task R → Option String → Option (Pose2D R) → Manager R → Manager R
  stop_goals w i t cancelled_id final_pose m =
      if w.backends.has_navigation
      then set_task i
          (with_state ExecutionState.planning (awaiting_cancel_all cancelled_id final_pose) t) m
      else finish_stop w i t cancelled_id final_pose m

  -- `_handle_stop` up to its first await.
  unfoldable pub begin_stop : World R → ℕ → Task R → Manager R → Manager R
  begin_stop w i t m =
      let cancelled_id = other_id t.command (active_task m t.command.robot_id) in
      let m' = cancel_by_id cancelled_id m in
      if w.backends.has_motion
      then set_task i (with_state ExecutionState.planning (awaiting_motion_stop cancelled_id) t) m'
      else stop_goals w i t cancelled_id none m'
