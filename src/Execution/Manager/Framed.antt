-- ===== src/Execution/Manager/Framed.antt =====
-- The frame of each stretch of a task that gives the task no backend.
use ros2_mcp_server.Base.{
  ℕ, String, ◌≡◌, refl, Bool, true, false, Option, none, some, if◌then◌else◌, Except, ok, raised,
  Exception,
}
use ros2_mcp_server.Number.{Number}
use ros2_mcp_server.Contracts.Core.{ExecutionState, Pose2D, ToolError}
use ros2_mcp_server.Contracts.Results.{ToolResult}
use ros2_mcp_server.Execution.Manager.Handlers.{
  Phase, Task, Manager, World, Outcome, returned, timed_out, threw, set_task, with_state, release,
  is_read, crash, begin_read, begin, end_read, finish_stop, stop_goals, begin_stop, other_id,
  active_task,
}
use ros2_mcp_server.Execution.Manager.Steps.{
  end_motion, reject, on_outcome, on_motion_stop, on_cancel_all,
}
use ros2_mcp_server.Execution.Manager.Invariant.{is_running}
use ros2_mcp_server.Execution.Manager.Frame.{
  Frame, Owns, Frame-trans, set_task-Frame, release-Frame, cancel_by_id-Frame, cancel_by_id-Owns,
}

module _ {R : Type 0} where
  release-Owns : {m : Manager R} {i : ℕ} {t : Task R} → Owns m i t → Owns (release i t m) i t
  unfolding release
  release-Owns o = record { labelled = o.labelled; unfinished = o.unfinished }

module _ {R : Type 0} ⦃n : Number R⦄ {P : ℕ → Type 0} where
  pub if-Frame :
      {m x y : Manager R} (b : Bool) → Frame P m x → Frame P m y → Frame P m (if b then x else y)
  if-Frame true f g = f
  if-Frame false f g = g

  -- A task is set to a phase in which no backend works for it.
  pub idle-Frame :
      {m : Manager R} {i : ℕ} (t : Task R) (st : ExecutionState) (ph : Phase R)
      → Owns m i t
      → is_running ph ≡ false
      → Frame P m (set_task i (with_state st ph t) m)
  idle-Frame t st ph o idle = set_task-Frame t (with_state st ph t) o refl (λ h. absurd (cc))

  module _ (w : World R) (i : ℕ) (t : Task R) where
    pub crash-Frame : {m : Manager R} (e : Exception) → Owns m i t → Frame P m (crash w i t e m)
    unfolding crash
    crash-Frame e o = idle-Frame t _ _ o refl

    begin_read-Frame : {m : Manager R} → Owns m i t → Frame P m (begin_read w i t m)
    unfolding begin_read
    begin_read-Frame o =
        if-Frame (w.handlers t.command.operation) (idle-Frame t _ _ o refl)
          (idle-Frame t _ _ o refl)

    pub begin-Frame : {m : Manager R} → Owns m i t → Frame P m (begin w i t m)
    unfolding begin
    begin-Frame o =
        if-Frame (is_read t.command.command_class) (begin_read-Frame o) (idle-Frame t _ _ o refl)

    pub end_read-Frame :
        {m : Manager R} (r : Except (ToolResult R)) → Owns m i t → Frame P m (end_read w i t r m)
    unfolding end_read
    end_read-Frame (ok r) o = idle-Frame t _ _ o refl
    end_read-Frame (raised e) o = crash-Frame e o

    finish_stop-Frame :
        {m : Manager R} (c : Option String) (p : Option (Pose2D R))
        → Owns m i t
        → Frame P m (finish_stop w i t c p m)
    unfolding finish_stop
    finish_stop-Frame c p o = idle-Frame t _ _ o refl

    stop_goals-Frame :
        {m : Manager R} (c : Option String) (p : Option (Pose2D R))
        → Owns m i t
        → Frame P m (stop_goals w i t c p m)
    unfolding stop_goals
    stop_goals-Frame c p o =
        if-Frame w.backends.has_navigation (idle-Frame t _ _ o refl) (finish_stop-Frame c p o)

    pub begin_stop-Frame : {m : Manager R} → Owns m i t → Frame P m (begin_stop w i t m)
    unfolding begin_stop
    begin_stop-Frame {m} o =
        let c = other_id t.command (active_task m t.command.robot_id) in
        let o' = cancel_by_id-Owns c o in
        Frame-trans (cancel_by_id-Frame c m)
          (if-Frame w.backends.has_motion (idle-Frame t _ _ o' refl) (stop_goals-Frame c none o'))

    pub end_motion-Frame :
        {m : Manager R} (r : ToolResult R) → Owns m i t → Frame P m (end_motion i t r m)
    unfolding end_motion
    end_motion-Frame {m} r o =
        Frame-trans (release-Frame i t m) (idle-Frame t _ _ (release-Owns o) refl)

    pub reject-Frame :
        {m : Manager R} (e : Option (ToolError R)) → Owns m i t → Frame P m (reject w i t e m)
    unfolding reject
    reject-Frame none o = crash-Frame _ o
    reject-Frame (some e) o = idle-Frame t _ _ o refl

    pub on_outcome-Frame :
        {m : Manager R} (r : Outcome R) → Owns m i t → Frame P m (on_outcome w i t r m)
    unfolding on_outcome
    on_outcome-Frame (returned r) o = end_motion-Frame r o
    on_outcome-Frame timed_out o = end_motion-Frame _ o
    on_outcome-Frame {m} (threw e) o =
        Frame-trans (release-Frame i t m) (crash-Frame e (release-Owns o))

    pub on_motion_stop-Frame :
        {m : Manager R} (c : Option String) (p : Except (Option (Pose2D R)))
        → Owns m i t
        → Frame P m (on_motion_stop w i t c p m)
    unfolding on_motion_stop
    on_motion_stop-Frame c (ok p) o = stop_goals-Frame c p o
    on_motion_stop-Frame c (raised e) o = crash-Frame e o

    pub on_cancel_all-Frame :
        {m : Manager R} (c : Option String) (p : Option (Pose2D R)) (r : Except (Unit {0}))
        → Owns m i t
        → Frame P m (on_cancel_all w i t c p r m)
    unfolding on_cancel_all
    on_cancel_all-Frame c p (ok _) o = finish_stop-Frame c p o
    on_cancel_all-Frame c p (raised e) o = crash-Frame e o
