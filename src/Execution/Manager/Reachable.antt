-- ===== src/Execution/Manager/Reachable.antt =====
-- The invariant of the manager after any history of calls and wake-ups, and what follows from it.
use ros2_mcp_server.Base.{
  ℕ, suc, String, ◌≡◌, refl, subst, ◌≢◌, inl, inr, true, not, ◌&&◌, List, [], ◌∷◌, Option, some,
  ◌==ℕ◌, get, put, pop, arith, Bool-cases, Option-cases,
}
use ros2_mcp_server.Number.{Number}
use ros2_mcp_server.Contracts.Core.{SemanticCommand}
use ros2_mcp_server.Execution.Manager.Handlers.{
  Phase, created, awaiting_read, awaiting_pose, awaiting_backend, awaiting_motion_stop,
  awaiting_cancel_all, Task, Manager, World, set_task,
}
use ros2_mcp_server.Execution.Manager.Steps.{
  Wake, started, read_done, pose_known, backend_done, motion_stopped, goals_cancelled, resume,
  wake_task, new_task, submit, is_done, settle, cancel, on_progress,
}
use ros2_mcp_server.Execution.Manager.Events.{
  Event, submits, wakes, settles, cancels, subscribes, step, run, init,
}
use ros2_mcp_server.Execution.Manager.Invariant.{TaskFits, Runs, Inv}
use ros2_mcp_server.Execution.Manager.Preserved.{
  if-Inv, replace-Inv, cancel_token-Inv, begin-Inv, end_read-Inv,
}
use ros2_mcp_server.Execution.Manager.Motion.{
  idle_Ready, on_pose-Inv, on_outcome-Inv, on_motion_stop-Inv, on_cancel_all-Inv,
}

module _ {R : Type 0} ⦃n : Number R⦄ where
  resume-Inv :
      {m : Manager R} {i : ℕ} (w : World R) (t : Task R) (ph : Phase R) (wake : Wake R)
      → Inv m
      → m.tasks i ≡ some t
      → t.phase ≡ ph
      → Inv (resume w i t ph wake m)
  unfolding resume
  resume-Inv w t created started v e p = begin-Inv w t (idle_Ready v e (rw p))
  resume-Inv w t awaiting_read (read_done r) v e p = end_read-Inv w t r (idle_Ready v e (rw p))
  resume-Inv w t awaiting_pose (pose_known x) v e p = on_pose-Inv w t x (idle_Ready v e (rw p)) e
  resume-Inv w t (awaiting_backend b) (backend_done o) v e p = on_outcome-Inv w t o v e
  resume-Inv w t (awaiting_motion_stop c) (motion_stopped x) v e p =
      on_motion_stop-Inv w t c x (idle_Ready v e (rw p))
  resume-Inv w t (awaiting_cancel_all c x) (goals_cancelled r) v e p =
      on_cancel_all-Inv w t c x r (idle_Ready v e (rw p))
  resume-Inv w t ph wake v e p = v

  wake_task-Inv :
      {m : Manager R} (w : World R) (i : ℕ) (wake : Wake R) → Inv m → Inv (wake_task w i wake m)
  unfolding wake_task
  wake_task-Inv {m} w i wake v = elim (Option-cases (m.tasks i)) [
    | inl e ↦ rw (e, wake_task) v
    | inr (t, e) ↦ rw (e, wake_task) (resume-Inv w t t.phase wake v e refl)
  ]

  submit-Inv :
      {m : Manager R} (c : SemanticCommand R) (start : R) → Inv m → Inv (submit c start m).0
  unfolding submit
  submit-Inv {m} c start v = elim (Option-cases (get c.command_id m.in_flight)) [
    | inr (i, e) ↦ rw (e, submit) v
    | inl e ↦ rw (e, submit) (added v)
  ]
    where
      added :
          Inv m
          → Inv (
              set_task m.next
                (new_task c start)
                (record m { next = suc m.next; in_flight = put c.command_id m.next m.in_flight }))
      added v = record {
        fresh = λ j h. ground (arith, v.fresh j);
        tokens_run = λ k j h. moved (v.tokens_run k j h);
        active_run = λ k j h. moved (v.active_run k j h);
        fits = λ j s h. elim (Bool-cases (j ==ℕ m.next)) [
          | inl same ↦
              let found : ◌≡◌ {A = Option (Task R)} (some (new_task c start)) (some s) =
                rw same at h in
              let q : new_task c start ≡ s = cc in subst TaskFits q tt
          | inr other ↦ v.fits j s (rw other at h)
        ];
      }
        where
          moved :
              {key : Task R → String} {k : String} {j : ℕ}
              → Runs key m k j
              → Runs key
                  (set_task m.next (new_task c start) (record m {
                    next = suc m.next;
                    in_flight = put c.command_id m.next m.in_flight;
                  }))
                  k
                  j
          moved {key} {k} {j} x =
              let older : j ≢ m.next = λ e. ground (arith, x.at, v.fresh j) in
              record {
                task = x.task;
                at = ground (arith, x.at);
                running = x.running;
                keyed = x.keyed;
              }

  -- The dictionary of futures plays no part in it either.
  forget : {m : Manager R} (c : String) → Inv m → Inv (record m { in_flight = pop c m.in_flight })
  forget {m} c v = record {
    fresh = v.fresh;
    tokens_run = λ k j h.
        let x = v.tokens_run k j h in
        record { task = x.task; at = x.at; running = x.running; keyed = x.keyed };
    active_run = λ k j h.
        let x = v.active_run k j h in
        record { task = x.task; at = x.at; running = x.running; keyed = x.keyed };
    fits = v.fits;
  }

  settle-Inv : {m : Manager R} (i : ℕ) → Inv m → Inv (settle i m)
  unfolding settle
  settle-Inv {m} i v = elim (Option-cases (m.tasks i)) [
    | inl e ↦ rw (e, settle) v
    | inr (t, e) ↦
        rw (e, settle)
          (if-Inv (is_done t.phase && not t.settled) _ m
            (forget t.command.command_id (replace-Inv (record t { settled = true }) v e refl refl))
            v)
  ]

  cancel-Inv : {m : Manager R} (c : String) → Inv m → Inv (cancel c m).0
  unfolding cancel
  cancel-Inv {m} c v = elim (Option-cases (get c m.tokens)) [
    | inl e ↦ rw (e, cancel) v
    | inr (j, e) ↦ rw (e, cancel) (cancel_token-Inv j v)
  ]

  on_progress-Inv :
      {m : Manager R} (c : String) (callback : ℕ) → Inv m → Inv (on_progress c callback m)
  unfolding on_progress
  on_progress-Inv {m} c callback v = record {
    fresh = v.fresh;
    tokens_run = λ k j h.
        let x = v.tokens_run k j h in
        record { task = x.task; at = x.at; running = x.running; keyed = x.keyed };
    active_run = λ k j h.
        let x = v.active_run k j h in
        record { task = x.task; at = x.at; running = x.running; keyed = x.keyed };
    fits = v.fits;
  }

  pub step-Inv : {m : Manager R} (e : Event R) → Inv m → Inv (step m e)
  unfolding step
  step-Inv (submits c start) v = submit-Inv c start v
  step-Inv (wakes w i wake) v = wake_task-Inv w i wake v
  step-Inv (settles i) v = settle-Inv i v
  step-Inv (cancels c) v = cancel-Inv c v
  step-Inv (subscribes c callback) v = on_progress-Inv c callback v

  run_from-Inv : (m : Manager R) (es : List (Event R)) → Inv m → Inv (run m es)
  unfolding run
  run_from-Inv m [] v = v
  run_from-Inv m (e ∷ es) v = run_from-Inv (step m e) es (step-Inv e v)

  pub init-Inv : Inv (init {R = R})
  unfolding get
  init-Inv = record {
    fresh = λ i h. refl;
    tokens_run = λ k i h. absurd (cc);
    active_run = λ k i h. absurd (cc);
    fits = λ i t h. absurd (cc);
  }

  -- After any history of submissions, wake-ups, cancellations and subscriptions: a token or an
  -- active command that is still registered belongs to a task that waits for a backend and that has
  -- that command id, or that robot id; and each command's execution state fits the point that its
  -- task has reached, a finished one being SUCCEEDED exactly when its result's status is
  -- "succeeded", and else FAILED, SAFETY_REJECTED, CAPABILITY_UNAVAILABLE or AWAITING_APPROVAL with
  -- a status that goes with it.
  pub run-Inv : (es : List (Event R)) → Inv (run init es)
  run-Inv es = run_from-Inv init es init-Inv
