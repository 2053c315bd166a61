-- ===== src/Execution/Manager/Motion.antt =====
-- The invariant of the manager over the stretches of `_execute_motion`.
use ros2_mcp_server.Base.{ℕ, String, ◌≡◌, false, Option, none, some, Except, ok, raised}
use ros2_mcp_server.Number.{Number}
use ros2_mcp_server.Contracts.Core.{
  ExecutionState, Pose2D, ToolError, Operation, SafetyOutcome, SafetyDecision, allow, deny,
  require_approval,
}
use ros2_mcp_server.Execution.ErrorResults.{build_error_result, build_result_with_defaults}
use ros2_mcp_server.Execution.Planner.{select_backend}
use ros2_mcp_server.Execution.Manager.Handlers.{
  done, Task, Manager, World, Outcome, returned, timed_out, threw, set_task, with_state,
  error_result,
}
use ros2_mcp_server.Execution.Manager.Steps.{
  dispatch, plan, awaiting_approval, reject, decide, after_check, on_pose, on_outcome,
  on_motion_stop, on_cancel_all, no_backend, unsupported, backstop,
}
use ros2_mcp_server.Execution.Manager.Invariant.{
  is_running, Inv, Unreferenced-of_not_running, below_next,
}
use ros2_mcp_server.Execution.Manager.Preserved.{
  Ready, set_Ready, if-Inv, release-Ready, crash-Inv, finish_stop-Inv, stop_goals-Inv,
  begin_stop-Inv, await_backend-Inv, end_motion-Inv,
}
use ros2_mcp_server.Safety.{SafetyEngine, check}

module _ {R : Type 0} ⦃n : Number R⦄ where
  dispatch-Inv :
      {m : Manager R} {i : ℕ} (w : World R) (t : Task R) (op : Operation)
      → Ready m i
      → m.tasks i ≡ some t
      → Inv (dispatch w i t m op)
  unfolding dispatch
  dispatch-Inv w t Operation.move r e = await_backend-Inv w t _ r
  dispatch-Inv w t Operation.navigate r e = await_backend-Inv w t _ r
  dispatch-Inv w t _ r e = end_motion-Inv t (unsupported w t) r.inv e

  plan-Inv :
      {m : Manager R} {i : ℕ} (w : World R) (t : Task R)
      → Ready m i
      → m.tasks i ≡ some t
      → Inv (plan w i t m)
  unfolding plan no_backend error_result build_error_result
  plan-Inv {m} {i} w t r e = if-Inv _ _ _ (begin_stop-Inv w t r) chosen
    where
      chosen : Inv (elim (select_backend w.backends t.command.operation w.entries) [
        | none ↦
            set_task i
              (with_state ExecutionState.capability_unavailable (done (no_backend w t)) t)
              m
        | some b ↦ dispatch w i t m t.command.operation
      ])
      chosen =
          elim (select_backend w.backends t.command.operation w.entries)
            as (λ o. Inv (elim o [
              | none ↦
                  set_task i
                    (with_state ExecutionState.capability_unavailable (done (no_backend w t)) t) m
              | some b ↦ dispatch w i t m t.command.operation
            ])) [ none ↦ set_Ready r _ tt | some b ↦ dispatch-Inv w t t.command.operation r e ]

  reject-Inv :
      {m : Manager R} {i : ℕ} (w : World R) (t : Task R) (o : Option (ToolError R))
      → Ready m i
      → Inv (reject w i t o m)
  unfolding reject error_result build_error_result
  reject-Inv w t none r = crash-Inv w t _ r
  reject-Inv w t (some e) r = set_Ready r _ tt

  decide-Inv :
      {m : Manager R} {i : ℕ} (w : World R) (t : Task R) (o : SafetyOutcome R) (d : SafetyDecision)
      → Ready m i
      → m.tasks i ≡ some t
      → Inv (decide w i t o m d)
  unfolding decide awaiting_approval build_result_with_defaults
  decide-Inv w t o deny r e = reject-Inv w t o.error r
  decide-Inv w t o require_approval r e = set_Ready r _ tt
  decide-Inv w t o allow r e = plan-Inv w t r e

  after_check-Inv :
      {m : Manager R} {i : ℕ} (w : World R) (t : Task R) (o : Except (SafetyOutcome R))
      → Ready m i
      → m.tasks i ≡ some t
      → Inv (after_check w i t o m)
  unfolding after_check
  after_check-Inv w t (ok o) r e = decide-Inv w t o o.decision r e
  after_check-Inv w t (raised x) r e = crash-Inv w t x r

  -- The engine's own state plays no part in the invariant.
  with_safety :
      {m : Manager R} {i : ℕ} (s : SafetyEngine R) → Ready m i → Ready (record m { safety = s }) i
  with_safety {m} {i} s r = record {
    inv = record {
      fresh = r.inv.fresh;
      tokens_run = λ k j h.
          let x = r.inv.tokens_run k j h in
          record { task = x.task; at = x.at; running = x.running; keyed = x.keyed };
      active_run = λ k j h.
          let x = r.inv.active_run k j h in
          record { task = x.task; at = x.at; running = x.running; keyed = x.keyed };
      fits = r.inv.fits;
    };
    below = r.below;
    free = record { no_token = r.free.no_token; not_active = r.free.not_active };
  }

  pub on_pose-Inv :
      {m : Manager R} {i : ℕ} (w : World R) (t : Task R) (p : Except (Option (Pose2D R)))
      → Ready m i
      → m.tasks i ≡ some t
      → Inv (on_pose w i t p m)
  unfolding on_pose
  on_pose-Inv w t (raised x) r e = crash-Inv w t x r
  on_pose-Inv {m} w t (ok pose) r e =
      let (o, s) = check m.safety t.command pose w.config w.checked_at in
      after_check-Inv w t o (with_safety s r) e

  pub on_outcome-Inv :
      {m : Manager R} {i : ℕ} (w : World R) (t : Task R) (o : Outcome R)
      → Inv m
      → m.tasks i ≡ some t
      → Inv (on_outcome w i t o m)
  unfolding on_outcome
  on_outcome-Inv w t (returned r) v e = end_motion-Inv t r v e
  on_outcome-Inv w t timed_out v e = end_motion-Inv t (backstop w t) v e
  on_outcome-Inv w t (threw x) v e = crash-Inv w t x (release-Ready t v e)

  pub on_motion_stop-Inv :
      {m : Manager R} {i : ℕ} (w : World R) (t : Task R) (c : Option String)
      (p : Except (Option (Pose2D R)))
      → Ready m i
      → Inv (on_motion_stop w i t c p m)
  unfolding on_motion_stop
  on_motion_stop-Inv w t c (ok p) r = stop_goals-Inv w t c p r
  on_motion_stop-Inv w t c (raised x) r = crash-Inv w t x r

  pub on_cancel_all-Inv :
      {m : Manager R} {i : ℕ} (w : World R) (t : Task R) (c : Option String) (p : Option (Pose2D R))
      (x : Except (Unit {0}))
      → Ready m i
      → Inv (on_cancel_all w i t c p x m)
  unfolding on_cancel_all
  on_cancel_all-Inv w t c p (ok _) r = finish_stop-Inv w t c p r
  on_cancel_all-Inv w t c p (raised x) r = crash-Inv w t x r

  pub idle_Ready :
      {m : Manager R} {i : ℕ} {t : Task R}
      → Inv m
      → m.tasks i ≡ some t
      → is_running t.phase ≡ false
      → Ready m i
  idle_Ready v e idle = record {
    inv = v;
    below = below_next v e;
    free = Unreferenced-of_not_running v e idle;
  }
