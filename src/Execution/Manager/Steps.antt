-- ===== src/Execution/Manager/Steps.antt =====
-- The rest of `_execute_motion`, the public methods of `DefaultExecutionManager`, and the events that
-- drive them.
use ros2_mcp_server.Base.{
  ℕ, suc, String, Bool, true, false, not, ◌&&◌, List, [], ◌∷◌, ◌++◌, Option, none, some,
  if◌then◌else◌, or_else, get, put, pop, Except, ok, raised, assertion_error,
}
use ros2_mcp_server.Number.{Number}
use ros2_mcp_server.Json.{bool, Message, text}
use ros2_mcp_server.Contracts.Core.{
  Operation, operation_value, ExecutionState, ErrorCode, ToolError, plain_error, Pose2D,
  SemanticCommand, SafetyDecision, allow, deny, require_approval, SafetyOutcome,
}
use ros2_mcp_server.Contracts.Results.{ToolResult, Status}
use ros2_mcp_server.Safety.{check, is_stop}
use ros2_mcp_server.Execution.ErrorResults.{build_result_with_defaults}
use ros2_mcp_server.Execution.Planner.{Backend, motion_backend, navigation_backend, select_backend}
use ros2_mcp_server.Execution.Manager.Handlers.{
  Phase, created, awaiting_read, awaiting_pose, awaiting_backend, awaiting_motion_stop,
  awaiting_cancel_all, done, Task, Manager, World, Outcome, returned, timed_out, threw, set_task,
  with_state, end_state, cancel_token, release, duration, error_result, crash, begin, end_read,
  stop_goals, finish_stop, begin_stop,
}

-- What the loop hands to a task.
pub data Wake (R : Type 0) : Type 0 where
  started : Wake R
  read_done : Except (ToolResult R) → Wake R
  pose_known : Except (Option (Pose2D R)) → Wake R
  backend_done : Outcome R → Wake R
  motion_stopped : Except (Option (Pose2D R)) → Wake R
  goals_cancelled : Except (Unit {0}) → Wake R

module _ {R : Type 0} ⦃n : Number R⦄ where
  open n use {plus, minus}

  -- The task once the backend's method is called, with its new token.
  unfoldable pub running_task : World R → Task R → Backend → Task R
  running_task w t b = record t {
    command = record t.command { execution_state = ExecutionState.executing };
    token =
        some (record {
          cancelled = false;
          deadline_monotonic = plus w.planned_at t.command.timeout_s;
        });
    phase = awaiting_backend b;
  }

  -- The token and the command are entered, and the backend's method is called and awaited.
  unfoldable pub await_backend : World R → ℕ → Task R → Backend → Manager R → Manager R
  unfolding running_task
  await_backend w i t b m = set_task i (running_task w t b) (record m {
    tokens = put t.command.command_id i m.tokens;
    active_commands = put t.command.robot_id i m.active_commands;
  })

  -- The last stretch of `_execute_motion`, with the result in hand.
  unfoldable pub end_motion : ℕ → Task R → ToolResult R → Manager R → Manager R
  end_motion i t r m = set_task i (with_state (end_state r) (done r) t) (release i t m)

  unfoldable pub unsupported : World R → Task R → ToolResult R
  unsupported w t = error_result w t (
      plain_error ErrorCode.internal_error
        (text "unsupported motion operation " ∷ text (operation_value t.command.operation) ∷ []))

  -- `if command.operation is Operation.MOVE … elif … else …`. The last branch awaits nothing.
  unfoldable pub dispatch : World R → ℕ → Task R → Manager R → Operation → Manager R
  dispatch w i t m Operation.move = await_backend w i t motion_backend m
  dispatch w i t m Operation.navigate = await_backend w i t navigation_backend m
  dispatch w i t m _ = end_motion i t (unsupported w t) m

  unfoldable pub no_backend : World R → Task R → ToolResult R
  no_backend w t = error_result w t (
      plain_error ErrorCode.capability_unavailable (
        text "no backend is currently available for "
        ∷ text (operation_value t.command.operation)
        ∷ []))

  -- From ExecutionState.PLANNING to the next await.
  unfoldable pub plan : World R → ℕ → Task R → Manager R → Manager R
  plan w i t m =
      if is_stop t.command.operation
      then begin_stop w i t m
      else elim (select_backend w.backends t.command.operation w.entries) [
        | none ↦
            set_task i (with_state ExecutionState.capability_unavailable (done (no_backend w t)) t)
              m
        | some b ↦ dispatch w i t m t.command.operation
      ]

  unfoldable pub awaiting_approval : World R → Task R → Message R → ToolResult R
  awaiting_approval w t reason =
      build_result_with_defaults t.command.expected_result_type Status.awaiting_approval
        t.command.command_id t.command.robot_id (duration w t)
        (some (record {
          code = ErrorCode.permission_denied;
          message = reason;
          details = ("awaiting_approval", bool true) ∷ [];
        }))

  unfoldable pub reject : World R → ℕ → Task R → Option (ToolError R) → Manager R → Manager R
  reject w i t none m = crash w i t assertion_error m
  reject w i t (some e) m =
      set_task i (with_state ExecutionState.safety_rejected (done (error_result w t e)) t) m

  unfoldable pub decide :
      World R → ℕ → Task R → SafetyOutcome R → Manager R → SafetyDecision → Manager R
  decide w i t outcome m deny = reject w i t outcome.error m
  decide w i t outcome m require_approval =
      set_task i
        (with_state ExecutionState.awaiting_approval
          (done (awaiting_approval w t (or_else outcome.approval_reason (text "" ∷ [])))) t)
        m
  decide w i t outcome m allow = plan w i t m

  -- What follows the safety check, whose engine is already in `m`.
  unfoldable pub after_check :
      World R → ℕ → Task R → Except (SafetyOutcome R) → Manager R → Manager R
  after_check w i t (raised e) m = crash w i t e m
  after_check w i t (ok outcome) m = decide w i t outcome m outcome.decision

  -- The pose has come: the check runs, and nothing stands between it and the decision.
  unfoldable pub on_pose : World R → ℕ → Task R → Except (Option (Pose2D R)) → Manager R → Manager R
  on_pose w i t (raised e) m = crash w i t e m
  on_pose w i t (ok pose) m =
      let (outcome, safety') = check m.safety t.command pose w.config w.checked_at in
      after_check w i t outcome (record m { safety = safety' })

  unfoldable pub backstop : World R → Task R → ToolResult R
  backstop w t = error_result w t (
      plain_error ErrorCode.action_timeout
        (text "command exceeded its timeout (execution-manager backstop)" ∷ []))

  unfoldable pub on_outcome : World R → ℕ → Task R → Outcome R → Manager R → Manager R
  on_outcome w i t (returned r) m = end_motion i t r m
  on_outcome w i t timed_out m = end_motion i t (backstop w t) m
  on_outcome w i t (threw e) m = crash w i t e (release i t m)

  unfoldable pub on_motion_stop :
      World R → ℕ → Task R → Option String → Except (Option (Pose2D R)) → Manager R → Manager R
  on_motion_stop w i t cancelled_id (ok final_pose) m = stop_goals w i t cancelled_id final_pose m
  on_motion_stop w i t cancelled_id (raised e) m = crash w i t e m

  unfoldable pub on_cancel_all :
      World R
      → ℕ
      → Task R
      → Option String
      → Option (Pose2D R)
      → Except (Unit {0})
      → Manager R
      → Manager R
  on_cancel_all w i t cancelled_id final_pose (ok _) m = finish_stop w i t cancelled_id final_pose m
  on_cancel_all w i t cancelled_id final_pose (raised e) m = crash w i t e m

  -- A task takes only what it waits for.
  unfoldable pub resume : World R → ℕ → Task R → Phase R → Wake R → Manager R → Manager R
  resume w i t created started m = begin w i t m
  resume w i t awaiting_read (read_done r) m = end_read w i t r m
  resume w i t awaiting_pose (pose_known p) m = on_pose w i t p m
  resume w i t (awaiting_backend b) (backend_done o) m = on_outcome w i t o m
  resume w i t (awaiting_motion_stop c) (motion_stopped p) m = on_motion_stop w i t c p m
  resume w i t (awaiting_cancel_all c p) (goals_cancelled r) m = on_cancel_all w i t c p r m
  resume w i t ph wake m = m

  unfoldable pub wake_task : World R → ℕ → Wake R → Manager R → Manager R
  wake_task w i wake m = elim (m.tasks i) [ none ↦ m | some t ↦ resume w i t t.phase wake m ]

module _ {R : Type 0} where
  abbrev pub new_task : SemanticCommand R → R → Task R
  new_task c start = record {
    command = c;
    start = start;
    token = none;
    phase = created;
    settled = false;
  }

  -- `submit` up to its await: the task whose future it awaits.
  unfoldable pub submit : SemanticCommand R → R → Manager R → Manager R × ℕ
  submit c start m = elim (get c.command_id m.in_flight) [
    | some i ↦ (m, i)
    | none ↦ (
      set_task m.next (new_task c start)
          (record m { next = suc m.next; in_flight = put c.command_id m.next m.in_flight }),
      m.next,
    )
  ]

  abbrev pub is_done : Phase R → Bool
  is_done (done r) = true
  is_done _ = false

  abbrev pub settle_task : ℕ → Task R → Manager R → Manager R
  settle_task i t m =
      if is_done t.phase && not t.settled
      then set_task i (record t { settled = true })
          (record m { in_flight = pop t.command.command_id m.in_flight })
      else m

  -- The call of `submit` that made task `i` goes on once the task is done, and runs its `finally`.
  unfoldable pub settle : ℕ → Manager R → Manager R
  settle i m = elim (m.tasks i) [ none ↦ m | some t ↦ settle_task i t m ]

  unfoldable pub cancel : String → Manager R → Manager R × Bool
  cancel command_id m = elim (get command_id m.tokens) [
    | none ↦ (m, false)
    | some i ↦ (cancel_token i m, true)
  ]

  unfoldable pub active_command : String → Manager R → Option (SemanticCommand R)
  active_command robot_id m = elim (get robot_id m.active_commands) [
    | none ↦ none
    | some i ↦ elim (m.tasks i) [ none ↦ none | some t ↦ some t.command ]
  ]

  unfoldable pub on_progress : String → ℕ → Manager R → Manager R
  on_progress command_id callback m = record m {
    progress_callbacks =
        put command_id (or_else (get command_id m.progress_callbacks) [] ++ callback ∷ [])
          m.progress_callbacks;
  }

  -- The callbacks that `emit_progress` calls, in order; one that raises does not stop the others.
  unfoldable pub emit_progress : String → Manager R → List ℕ
  emit_progress command_id m = or_else (get command_id m.progress_callbacks) []
