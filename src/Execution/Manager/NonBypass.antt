-- ===== src/Execution/Manager/NonBypass.antt =====
-- Over every event of the manager: a task gets to run on a backend only by the way of IsPermitted.
use ros2_mcp_server.Base.{ℕ, String, ◌≡◌, refl, true, some, get, Option-cases, inl, inr, ◌⊎◌, arith}
use ros2_mcp_server.Number.{Number}
use ros2_mcp_server.Contracts.Core.{SemanticCommand}
use ros2_mcp_server.Execution.Manager.Handlers.{Task, Manager}
use ros2_mcp_server.Execution.Manager.Steps.{submit, settle, cancel, on_progress}
use ros2_mcp_server.Execution.Manager.Events.{
  Event, submits, wakes, settles, cancels, subscribes, step,
}
use ros2_mcp_server.Execution.Manager.Frame.{Frame, Frame-refl, cancel_token-Frame, runs}
use ros2_mcp_server.Execution.Manager.Permitted.{IsPermitted, wake_task-Frame}

module _ {R : Type 0} where
  pub cancel-Frame : {P : ℕ → Type 0} (c : String) (m : Manager R) → Frame P m (cancel c m).0
  unfolding cancel
  cancel-Frame c m = elim (Option-cases (get c m.tokens)) [
    | inl e ↦ rw (e, cancel) (Frame-refl m)
    | inr (i, e) ↦ rw (e, cancel) (cancel_token-Frame i m)
  ]

  pub on_progress-Frame :
      {P : ℕ → Type 0} (c : String) (callback : ℕ) (m : Manager R)
      → Frame P m (on_progress c callback m)
  unfolding on_progress
  on_progress-Frame c callback m = record {
    flight = refl;
    bound = refl;
    labels = λ j. refl;
    final = λ j x h. h;
    quiet = λ j h. inl h;
  }

  submit-quiet :
      (c : SemanticCommand R) (start : R) (m : Manager R) (j : ℕ)
      → runs (submit c start m).0 j ≡ true
      → runs m j ≡ true
  unfolding submit
  submit-quiet c start m j h = elim (Option-cases (get c.command_id m.in_flight)) [
    | inl e ↦ ground (arith, e, h)
    | inr (i, e) ↦ ground (arith, e, h)
  ]

  settle-quiet : (i : ℕ) (m : Manager R) (j : ℕ) → runs (settle i m) j ≡ true → runs m j ≡ true
  unfolding settle
  settle-quiet i m j h = elim (Option-cases (m.tasks i)) [
    | inl e ↦ ground (arith, e, h)
    | inr (t, e) ↦ ground (arith, e, h)
  ]

module _ {R : Type 0} ⦃n : Number R⦄ where
  -- The event wakes the task, on the way of IsPermitted.
  abbrev pub IsDispatched : Manager R → Event R → ℕ → Type 0
  IsDispatched m (wakes w i wake) j =
      (i ≡ j) × ((t : Task R) × (m.tasks i ≡ some t) × IsPermitted m w t wake)
  IsDispatched m _ j = ⊥

  -- Whatever the event, a task that is running on a backend after it either ran on one before, or was
  -- dispatched by this very event: it waited for the robot's pose, the event brought the pose, the
  -- safety engine's check of its command on that pose returned an outcome that allows it, and the
  -- planner chose a backend for it.
  pub step-IsDispatched :
      (m : Manager R) (e : Event R) (j : ℕ)
      → runs (step m e) j ≡ true
      → (runs m j ≡ true) ⊎ IsDispatched m e j
  unfolding step
  step-IsDispatched m (submits c start) j h = inl (submit-quiet c start m j h)
  step-IsDispatched m (wakes w i wake) j h =
      (wake_task-Frame {P = IsDispatched m (wakes w i wake)} w i wake
          (λ t e p. (refl, (t, e, p)))).quiet
        j h
  step-IsDispatched m (settles i) j h = inl (settle-quiet i m j h)
  step-IsDispatched m (cancels c) j h = (cancel-Frame {P = λ _. ⊥} c m).quiet j h
  step-IsDispatched m (subscribes c callback) j h =
      (on_progress-Frame {P = λ _. ⊥} c callback m).quiet j h
