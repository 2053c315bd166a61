-- ===== src/Scenarios/Manager.antt =====
-- Histories of the execution manager.
use ros2_mcp_server.Contracts.Core.{ExecutionState}
use ros2_mcp_server.Execution.Manager.Events.{cancels}
use ros2_mcp_server.Base.{
  ℕ, zero, suc, String, ◌==◌, eq_iff, ◌⊎◌, ◌≡◌, ◌≢◌, refl, true, false, List, [], ◌∷◌, Option, none,
  some, ok, arith,
}
use ros2_mcp_server.Number.Fixed.{ℤ, fixed}
use ros2_mcp_server.Contracts.Core.{Confidence}
use ros2_mcp_server.Contracts.Results.{ToolResult, Status, motion}
use ros2_mcp_server.Contracts.Discovery.{CapabilityEntry}
use ros2_mcp_server.Execution.Manager.Handlers.{World, returned, Manager}
use ros2_mcp_server.Execution.Manager.Steps.{started, pose_known, backend_done, motion_stopped}
use ros2_mcp_server.Execution.Manager.Events.{Event, submits, wakes, settles, run, init}
use ros2_mcp_server.Execution.Manager.Invariant.{Inv}
use ros2_mcp_server.Execution.Manager.Reachable.{run-Inv}
use ros2_mcp_server.Execution.Manager.Frame.{runs, result_at, label_at}
use ros2_mcp_server.Execution.Manager.NonBypass.{IsDispatched, step-IsDispatched}
use ros2_mcp_server.Execution.Manager.Finality.{id_at, run-final}
use ros2_mcp_server.Execution.Manager.SingleFlight.{submit-single_flight}
use ros2_mcp_server.Scenarios.Data.{m, safety_config, pose, move_command, stop_command}
use ros2_mcp_server.Base.{Dict, get, put, pop}
use ros2_mcp_server.Geometry.{project_translation}
use ros2_mcp_server.Execution.Planner.{select_backend}
use ros2_mcp_server.Execution.Manager.Handlers.{
  begin, begin_read, begin_stop, cancel_by_id, cancel_token, crash, end_read, error_result,
  finish_stop, release, stop_goals,
}
use ros2_mcp_server.Execution.Manager.Steps.{
  await_backend, awaiting_approval, decide, dispatch, end_motion, no_backend, on_cancel_all,
  on_motion_stop, on_outcome, on_pose, after_check, plan, reject, running_task, resume, settle,
  submit, wake_task,
}
use ros2_mcp_server.Execution.Manager.Events.{step}
use ros2_mcp_server.Safety.{
  check, check_rate_limit, check_target, check_move, predicted_move_endpoint, check_position,
  within_geofence, check_hitl,
}

abbrev drive : CapabilityEntry ℤ
drive = record {
  capability_id = "differential_drive_motion";
  confidence = Confidence.confirmed;
  backend_id = some "cmd_vel";
  resolved_topics = [];
  limits = [];
}

abbrev pub world : World ℤ
world = record {
  handlers = λ o. true;
  backends = record { has_motion = true; has_navigation = false; navigation_available = false };
  entries = drive ∷ [];
  config = safety_config;
  checked_at = m 10;
  planned_at = m 10;
  finished_at = m 12;
}

abbrev moved : ToolResult ℤ
moved = record {
  status = Status.succeeded;
  command_id = "c1";
  robot_id = "r1";
  duration_sec = m 2;
  error = none;
  payload =
      motion (record { distance_traveled_m = m 2; final_pose = some pose; stop_reason = none });
}

-- A move is under way when it is stopped; both then end.
abbrev pub stopped_move : List (Event ℤ)
stopped_move =
    submits (move_command "c1" (m 2)) (m 10)
    ∷ wakes world 0 started
    ∷ wakes world 0 (pose_known (ok (some pose)))
    ∷ submits (stop_command "c2") (m 11)
    ∷ wakes world 1 started
    ∷ wakes world 1 (pose_known (ok (some pose)))
    ∷ wakes world 1 (motion_stopped (ok (some pose)))
    ∷ wakes world 0 (backend_done (returned moved))
    ∷ settles 1
    ∷ settles 0
    ∷ []

abbrev registered : Manager ℤ → Dict ℕ × Dict ℕ × Dict ℕ
registered man = (man.tokens, man.active_commands, man.in_flight)

nothing_left : registered (run init stopped_move) ≡ ([], [], [])
unfolding run step get put pop project_translation select_backend begin begin_read begin_stop
    cancel_by_id cancel_token crash end_read error_result finish_stop release stop_goals
    await_backend awaiting_approval decide dispatch end_motion no_backend on_cancel_all
    on_motion_stop on_outcome on_pose after_check plan reject running_task resume settle submit
    wake_task check check_rate_limit check_target check_move predicted_move_endpoint check_position
    within_geofence check_hitl
nothing_left = refl

run-Inv_example : Inv (run init stopped_move)
run-Inv_example = run-Inv stopped_move

abbrev checked_move : List (Event ℤ)
checked_move = submits (move_command "c1" (m 2)) (m 10) ∷ wakes world 0 started ∷ []

abbrev pose_comes : Event ℤ
pose_comes = wakes world 0 (pose_known (ok (some pose)))

move_runs : runs (step (run init checked_move) pose_comes) 0 ≡ true
unfolding run step get put pop project_translation select_backend begin begin_read begin_stop
    cancel_by_id cancel_token crash end_read error_result finish_stop release stop_goals
    await_backend awaiting_approval decide dispatch end_motion no_backend on_cancel_all
    on_motion_stop on_outcome on_pose after_check plan reject running_task resume settle submit
    wake_task check check_rate_limit check_target check_move predicted_move_endpoint check_position
    within_geofence check_hitl
move_runs = refl

step-IsDispatched_example :
    (runs (run init checked_move) 0 ≡ true) ⊎ IsDispatched (run init checked_move) pose_comes 0
step-IsDispatched_example = step-IsDispatched (run init checked_move) pose_comes 0 move_runs

move_ended : result_at (run init stopped_move) 0 ≡ some (ExecutionState.succeeded, moved)
unfolding run step get put pop project_translation select_backend begin begin_read begin_stop
    cancel_by_id cancel_token crash end_read error_result finish_stop release stop_goals
    await_backend awaiting_approval decide dispatch end_motion no_backend on_cancel_all
    on_motion_stop on_outcome on_pose after_check plan reject running_task resume settle submit
    wake_task check check_rate_limit check_target check_move predicted_move_endpoint check_position
    within_geofence check_hitl
move_ended = refl

abbrev too_late : List (Event ℤ)
too_late =
    cancels "c1"
    ∷ submits (stop_command "c3") (m 12)
    ∷ wakes world 0 (backend_done (returned moved))
    ∷ settles 0
    ∷ []

some_id : {a b : String} → some a ≡ some b → a ≡ b
some_id h = cc

no_id :
    (k : String) (w : Manager ℤ) (i : ℕ)
    → w.tasks i ≡ none
    → ◌≢◌ {A = Option String} (id_at w i) (some k)
no_id k w i e h = ground (arith, e, h)

two_tasks : (run init stopped_move).next ≡ 2
unfolding run step get put pop project_translation select_backend begin begin_read begin_stop
    cancel_by_id cancel_token crash end_read error_result finish_stop release stop_goals
    await_backend awaiting_approval decide dispatch end_motion no_backend on_cancel_all
    on_motion_stop on_outcome on_pose after_check plan reject running_task resume settle submit
    wake_task check check_rate_limit check_target check_move predicted_move_endpoint check_position
    within_geofence check_hitl
two_tasks = refl

no_third : (i : ℕ) → (run init stopped_move).tasks (suc (suc i)) ≡ none
no_third i = (run-Inv stopped_move).fresh (suc (suc i)) (rw two_tasks (omega arith))

c2_is_other : ◌≢◌ {A = String} "c2" "c1"
c2_is_other e = let same : "c2" == "c1" ≡ true = (eq_iff "c2" "c1").1 e in absurd (cc (same))

c3_is_other : ◌≢◌ {A = String} "c3" "c1"
c3_is_other e = let same : "c3" == "c1" ≡ true = (eq_iff "c3" "c1").1 e in absurd (cc (same))

only_move : (i : ℕ) → id_at (run init stopped_move) i ≡ some "c1" → i ≡ 0
unfolding run step get put pop project_translation select_backend begin begin_read begin_stop
    cancel_by_id cancel_token crash end_read error_result finish_stop release stop_goals
    await_backend awaiting_approval decide dispatch end_motion no_backend on_cancel_all
    on_motion_stop on_outcome on_pose after_check plan reject running_task resume settle submit
    wake_task check check_rate_limit check_target check_move predicted_move_endpoint check_position
    within_geofence check_hitl
only_move zero h = refl
only_move (suc zero) h = absurd (c2_is_other (some_id h))
only_move (suc (suc i)) h = absurd (no_id "c1" (run init stopped_move) (suc (suc i)) (no_third i) h)

run-final_example :
    (result_at (run (run init stopped_move) too_late) 0 ≡ some (ExecutionState.succeeded, moved))
    × ((i : ℕ) → id_at (run (run init stopped_move) too_late) i ≡ some "c1" → i ≡ 0)
run-final_example =
    run-final stopped_move too_late 0 "c1" (ExecutionState.succeeded, moved) only_move move_ended
      (tt, (c3_is_other, (tt, (tt, tt))))

move_open : label_at (run init checked_move) 0 ≡ some ("c1", false)
unfolding run step get put pop project_translation select_backend begin begin_read begin_stop
    cancel_by_id cancel_token crash end_read error_result finish_stop release stop_goals
    await_backend awaiting_approval decide dispatch end_motion no_backend on_cancel_all
    on_motion_stop on_outcome on_pose after_check plan reject running_task resume settle submit
    wake_task check check_rate_limit check_target check_move predicted_move_endpoint check_position
    within_geofence check_hitl
move_open = refl

submit-single_flight_example :
    (submit (move_command "c1" (m 2)) (m 11) (run init checked_move) ≡ (run init checked_move, 0))
    × ((j : ℕ) → label_at (run init checked_move) j ≡ some ("c1", false) → j ≡ 0)
submit-single_flight_example =
    submit-single_flight checked_move 0 (move_command "c1" (m 2)) (m 11) move_open
