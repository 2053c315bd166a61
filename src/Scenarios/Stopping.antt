-- ===== src/Scenarios/Stopping.antt =====
-- A stop while two moves of one robot are under way, and the planner's choice.
use ros2_mcp_server.Base.{
  ◌↔◌, ◌⊎◌, ℕ, ◌≡◌, refl, ◌≢◌, Bool, true, false, List, [], ◌∷◌, Option, none, some, ok, arith,
}
use ros2_mcp_server.Number.Fixed.{ℤ, fixed}
use ros2_mcp_server.Contracts.Core.{Operation}
use ros2_mcp_server.Base.{get, put, pop}
use ros2_mcp_server.Geometry.{project_translation}
use ros2_mcp_server.Execution.Planner.{motion_backend, select_backend}
use ros2_mcp_server.Execution.Planner.Choice.{Serves, select_backend-Serves}
use ros2_mcp_server.Execution.Manager.Handlers.{Task}
use ros2_mcp_server.Execution.Manager.Handlers.{Manager}
use ros2_mcp_server.Execution.Manager.Handlers.{
  begin, begin_read, begin_stop, cancel_by_id, cancel_token, crash, end_read, error_result,
  finish_stop, release, stop_goals,
}
use ros2_mcp_server.Execution.Manager.Steps.{started, pose_known}
use ros2_mcp_server.Execution.Manager.Steps.{
  await_backend, awaiting_approval, decide, dispatch, end_motion, no_backend, on_cancel_all,
  on_motion_stop, on_outcome, on_pose, after_check, plan, reject, running_task, resume, settle,
  submit, wake_task,
}
use ros2_mcp_server.Safety.{
  check, check_rate_limit, check_target, check_move, predicted_move_endpoint, check_position,
  within_geofence, check_hitl,
}
use ros2_mcp_server.Execution.Manager.Steps.{new_task}
use ros2_mcp_server.Execution.Manager.Events.{Event, submits, wakes, run, init, step}
use ros2_mcp_server.Execution.Manager.Frame.{runs}
use ros2_mcp_server.Execution.Manager.Stop.{IsStopped, with_token_cancelled, begin_stop-tasks}
use ros2_mcp_server.Scenarios.Data.{m, pose, move_command, stop_command}
use ros2_mcp_server.Scenarios.Manager.{world}

abbrev two_moves : List (Event ℤ)
two_moves =
    submits (move_command "c1" (m 2)) (m 10)
    ∷ wakes world 0 started
    ∷ wakes world 0 (pose_known (ok (some pose)))
    ∷ submits (move_command "c2" (m 1)) (m 10)
    ∷ wakes world 1 started
    ∷ wakes world 1 (pose_known (ok (some pose)))
    ∷ []

abbrev then_stop : List (Event ℤ)
then_stop =
    submits (stop_command "c3") (m 11)
    ∷ wakes world 2 started
    ∷ wakes world 2 (pose_known (ok (some pose)))
    ∷ []

abbrev is_cancelled : Option (Task ℤ) → Bool
is_cancelled none = false
is_cancelled (some t) = elim t.token [ none ↦ false | some token ↦ token.cancelled ]

abbrev cancellations : Manager ℤ → Bool × Bool × Bool × Bool
cancellations man = (runs man 0, is_cancelled (man.tasks 0), runs man 1, is_cancelled (man.tasks 1))

-- Both moves run; the stop cancels the later one, and the earlier one runs on.
earlier_move_runs_on :
    cancellations (run (run init two_moves) then_stop) ≡ (true, false, true, true)
unfolding run step get put pop project_translation select_backend begin begin_read begin_stop
    cancel_by_id cancel_token crash end_read error_result finish_stop release stop_goals
    await_backend awaiting_approval decide dispatch end_motion no_backend on_cancel_all
    on_motion_stop on_outcome on_pose after_check plan reject running_task resume settle submit
    wake_task check check_rate_limit check_target check_move predicted_move_endpoint check_position
    within_geofence check_hitl
earlier_move_runs_on = refl

abbrev stop_task : Task ℤ
stop_task = new_task (stop_command "c3") (m 11)

differs : ◌≢◌ {A = ℕ} 1 2
differs = ground arith

begin_stop-tasks_example :
    (IsStopped (run init two_moves) stop_task.command 1
      × ((begin_stop world 2 stop_task (run init two_moves)).tasks 1
          ≡ with_token_cancelled ((run init two_moves).tasks 1)))
    ⊎ ((¬ IsStopped (run init two_moves) stop_task.command 1)
        × ((begin_stop world 2 stop_task (run init two_moves)).tasks 1
            ≡ (run init two_moves).tasks 1))
begin_stop-tasks_example = begin_stop-tasks world 2 stop_task (run init two_moves) 1 differs

motion_chosen : select_backend world.backends Operation.move world.entries ≡ some motion_backend
unfolding select_backend
motion_chosen = refl

select_backend-Serves_example :
    (select_backend world.backends Operation.move world.entries ≡ some motion_backend)
    ↔ Serves world.backends world.entries Operation.move motion_backend
select_backend-Serves_example =
    select_backend-Serves world.backends Operation.move world.entries motion_backend
