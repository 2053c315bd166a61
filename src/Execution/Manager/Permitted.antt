-- ===== src/Execution/Manager/Permitted.antt =====
-- The rule that nothing bypasses the safety check: how a task of execution/manager.py gets to run on
-- a backend, over every step of the manager.
use ros2_mcp_server.Base.{
  ℕ, ◌≡◌, refl, false, Option, none, some, Except, ok, raised, Option-cases, Except-cases, inl, inr,
  arith,
}
use ros2_mcp_server.Number.{Number}
use ros2_mcp_server.Contracts.Core.{
  Operation, ExecutionState, Pose2D, SafetyDecision, allow, deny, require_approval, SafetyOutcome,
}
use ros2_mcp_server.Safety.{SafetyEngine, check, is_stop}
use ros2_mcp_server.Execution.Planner.{Backend, motion_backend, navigation_backend, select_backend}
use ros2_mcp_server.Execution.Manager.Handlers.{
  Phase, created, awaiting_read, awaiting_pose, awaiting_backend, awaiting_motion_stop,
  awaiting_cancel_all, done, Task, Manager, World, set_task, with_state,
}
use ros2_mcp_server.Execution.Manager.Steps.{
  running_task, await_backend, dispatch, plan, decide, after_check, on_pose, Wake, started,
  read_done, pose_known, backend_done, motion_stopped, goals_cancelled, resume, wake_task, is_done,
  no_backend, unsupported,
}
use ros2_mcp_server.Execution.Manager.Frame.{
  Frame, Owns, Frame-refl, Frame-trans, set_task-Frame, result_at, label_at, ending,
}
use ros2_mcp_server.Execution.Manager.Framed.{
  if-Frame, idle-Frame, crash-Frame, begin-Frame, end_read-Frame, begin_stop-Frame,
  end_motion-Frame, reject-Frame, on_outcome-Frame, on_motion_stop-Frame, on_cancel_all-Frame,
}

module _ {R : Type 0} where
  with_safety-Frame :
      {P : ℕ → Type 0} (m : Manager R) (s : SafetyEngine R) → Frame P m (record m { safety = s })
  with_safety-Frame m s = record {
    flight = refl;
    bound = refl;
    labels = λ j. refl;
    final = λ j x h. h;
    quiet = λ j h. inl h;
  }

  with_safety-Owns :
      {m : Manager R} {i : ℕ} {t : Task R} (s : SafetyEngine R)
      → Owns m i t
      → Owns (record m { safety = s }) i t
  with_safety-Owns s o = record { labelled = o.labelled; unfinished = o.unfinished }

  unfinished_ending :
      (ph : Phase R) (st : ExecutionState) → is_done ph ≡ false → ending ph st ≡ none
  unfinished_ending ph st h = ground arith

  -- A task that waits is owned by its own step.
  owned :
      {m : Manager R} {i : ℕ} {t : Task R} {ph : Phase R}
      → t.phase ≡ ph
      → is_done ph ≡ false
      → m.tasks i ≡ some t
      → Owns m i t
  owned {t} {ph} h waits e = record {
    labelled = rw (label_at, e) refl;
    unfinished = rw (result_at, e, h) (unfinished_ending ph _ waits);
  }

module _ {R : Type 0} ⦃n : Number R⦄ where
  -- The way on which a task gets to a backend: it waited for the robot's pose, the pose came, the
  -- safety engine returned an outcome that allows the command, and the planner chose a backend.
  pub record IsPermitted (m : Manager R) (w : World R) (t : Task R) (wake : Wake R) : Type 0 where
    pub pose : Option (Pose2D R)
    pub outcome : SafetyOutcome R
    pub backend : Backend
    pub waited : t.phase ≡ awaiting_pose
    pub woken : wake ≡ pose_known (ok pose)
    pub checked : (check m.safety t.command pose w.config w.checked_at).0 ≡ ok outcome
    pub decided : outcome.decision ≡ allow
    pub selected : select_backend w.backends t.command.operation w.entries ≡ some backend

  module _ {P : ℕ → Type 0} (w : World R) (i : ℕ) (t : Task R) where
    await_backend-Frame :
        {m : Manager R} (b : Backend) → Owns m i t → P i → Frame P m (await_backend w i t b m)
    unfolding await_backend running_task
    await_backend-Frame {m} b o p =
        let f = set_task-Frame {P = P} {m = m} t (running_task w t b) o refl (λ h. p) in
        record {
          flight = f.flight;
          bound = f.bound;
          labels = f.labels;
          final = f.final;
          quiet = f.quiet;
        }

    dispatch-Frame :
        {m : Manager R} (op : Operation) → Owns m i t → P i → Frame P m (dispatch w i t m op)
    unfolding dispatch
    dispatch-Frame Operation.move o p = await_backend-Frame motion_backend o p
    dispatch-Frame Operation.navigate o p = await_backend-Frame navigation_backend o p
    dispatch-Frame _ o p = end_motion-Frame w i t (unsupported w t) o

    plan-Frame :
        {m : Manager R}
        → Owns m i t
        → ((b : Backend) → select_backend w.backends t.command.operation w.entries ≡ some b → P i)
        → Frame P m (plan w i t m)
    unfolding plan
    plan-Frame {m} o p = if-Frame (is_stop t.command.operation) (begin_stop-Frame w i t o) chosen
      where
        chosen : Frame P m (elim (select_backend w.backends t.command.operation w.entries) [
          | none ↦
              set_task i
                (with_state ExecutionState.capability_unavailable (done (no_backend w t)) t)
                m
          | some b ↦ dispatch w i t m t.command.operation
        ])
        chosen = elim (Option-cases (select_backend w.backends t.command.operation w.entries)) [
          | inl e ↦ rw e (idle-Frame t _ _ o refl)
          | inr (b, e) ↦ rw e (dispatch-Frame t.command.operation o (p b e))
        ]

    decide-Frame :
        {m : Manager R} (outcome : SafetyOutcome R) (d : SafetyDecision)
        → Owns m i t
        → (d ≡ allow
            → (b : Backend) → select_backend w.backends t.command.operation w.entries ≡ some b
            → P i)
        → Frame P m (decide w i t outcome m d)
    unfolding decide
    decide-Frame outcome allow o p = plan-Frame o (p refl)
    decide-Frame outcome deny o p = reject-Frame w i t outcome.error o
    decide-Frame outcome require_approval o p = idle-Frame t _ _ o refl

  on_pose-Frame :
      {P : ℕ → Type 0} (w : World R) (i : ℕ) (t : Task R) {m : Manager R}
      (p : Except (Option (Pose2D R)))
      → t.phase ≡ awaiting_pose
      → Owns m i t
      → (IsPermitted m w t (pose_known p) → P i)
      → Frame P m (on_pose w i t p m)
  unfolding on_pose after_check
  on_pose-Frame w i t (raised e) h o permit = crash-Frame w i t e o
  on_pose-Frame w i t {m} (ok pose) h o permit =
      let result = check m.safety t.command pose w.config w.checked_at in
      let o' = with_safety-Owns result.1 o in
      Frame-trans (with_safety-Frame m result.1) (elim (Except-cases result.0) [
        | inr (e, q) ↦ rw (q, after_check) (crash-Frame w i t e o')
        | inl (outcome, q) ↦
            rw (q, after_check)
              (decide-Frame w i t outcome outcome.decision o' (λ d b s. permit (record {
                pose = pose;
                outcome = outcome;
                backend = b;
                waited = h;
                woken = refl;
                checked = q;
                decided = d;
                selected = s;
              })))
      ])

  resume-Frame :
      {P : ℕ → Type 0} (w : World R) (i : ℕ) (t : Task R) {m : Manager R} (ph : Phase R)
      (wake : Wake R)
      → t.phase ≡ ph
      → m.tasks i ≡ some t
      → (IsPermitted m w t wake → P i)
      → Frame P m (resume w i t ph wake m)
  unfolding resume
  resume-Frame w i t created started h e p = begin-Frame w i t (owned h refl e)
  resume-Frame w i t awaiting_read (read_done r) h e p = end_read-Frame w i t r (owned h refl e)
  resume-Frame w i t awaiting_pose (pose_known x) h e p = on_pose-Frame w i t x h (owned h refl e) p
  resume-Frame w i t (awaiting_backend b) (backend_done r) h e p =
      on_outcome-Frame w i t r (owned h refl e)
  resume-Frame w i t (awaiting_motion_stop c) (motion_stopped x) h e p =
      on_motion_stop-Frame w i t c x (owned h refl e)
  resume-Frame w i t (awaiting_cancel_all c x) (goals_cancelled r) h e p =
      on_cancel_all-Frame w i t c x r (owned h refl e)
  resume-Frame w i t {m} ph wake h e p = Frame-refl m

  pub wake_task-Frame :
      {P : ℕ → Type 0} (w : World R) (i : ℕ) {m : Manager R} (wake : Wake R)
      → ((t : Task R) → m.tasks i ≡ some t → IsPermitted m w t wake → P i)
      → Frame P m (wake_task w i wake m)
  unfolding wake_task
  wake_task-Frame w i {m} wake p = elim (Option-cases (m.tasks i)) [
    | inl e ↦ rw (e, wake_task) (Frame-refl m)
    | inr (t, e) ↦ rw (e, wake_task) (resume-Frame w i t t.phase wake refl e (p t e))
  ]
