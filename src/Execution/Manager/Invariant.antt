-- ===== src/Execution/Manager/Invariant.antt =====
-- What holds of `DefaultExecutionManager` after any history: which tasks its dictionaries refer to,
-- and how a command's execution state fits the point that its task has reached.
use ros2_mcp_server.Base.{
  ℕ, ◌≤◌, ◌<◌, String, ◌≡◌, subst, ◌≢◌, inl, inr, Bool, true, false, Option, none, some, eq_iff,
  ◌==ℕ◌, get, get-pop, arith, Bool-cases,
}
use ros2_mcp_server.Contracts.Core.{ExecutionState}
use ros2_mcp_server.Contracts.Results.{Status}
use ros2_mcp_server.Execution.Manager.Handlers.{
  Phase, created, awaiting_read, awaiting_pose, awaiting_backend, awaiting_motion_stop,
  awaiting_cancel_all, done, Task, Manager, set_task, release,
}

abbrev pub DoneFits : ExecutionState → Status → Type 0
DoneFits ExecutionState.succeeded Status.succeeded = Unit
DoneFits ExecutionState.failed Status.failed = Unit
DoneFits ExecutionState.failed Status.awaiting_approval = Unit
DoneFits ExecutionState.safety_rejected Status.failed = Unit
DoneFits ExecutionState.capability_unavailable Status.failed = Unit
DoneFits ExecutionState.awaiting_approval Status.awaiting_approval = Unit
DoneFits _ _ = ⊥

module _ {R : Type 0} where
  abbrev pub is_running : Phase R → Bool
  is_running (awaiting_backend b) = true
  is_running _ = false

  abbrev pub Fits : Phase R → ExecutionState → Type 0
  Fits created st = Unit
  Fits awaiting_read st = st ≡ ExecutionState.executing
  Fits awaiting_pose st = st ≡ ExecutionState.safety_check
  Fits (awaiting_backend b) st = st ≡ ExecutionState.executing
  Fits (awaiting_motion_stop c) st = st ≡ ExecutionState.planning
  Fits (awaiting_cancel_all c p) st = st ≡ ExecutionState.planning
  Fits (done r) st = DoneFits st r.status

  abbrev pub TaskFits : Task R → Type 0
  TaskFits t = Fits t.phase t.command.execution_state

  -- The task of a reference waits for a backend, under the key that refers to it.
  pub record Runs (key : Task R → String) (m : Manager R) (k : String) (i : ℕ) : Type 0 where
    pub task : Task R
    pub at : m.tasks i ≡ some task
    pub running : is_running task.phase ≡ true
    pub keyed : key task ≡ k

  abbrev pub by_command : Task R → String
  by_command t = t.command.command_id

  abbrev pub by_robot : Task R → String
  by_robot t = t.command.robot_id

  pub record Inv (m : Manager R) : Type 0 where
    pub fresh : (i : ℕ) → m.next ≤ i → m.tasks i ≡ none
    pub tokens_run : (k : String) (i : ℕ) → get k m.tokens ≡ some i → Runs by_command m k i
    pub active_run : (k : String) (i : ℕ) → get k m.active_commands ≡ some i → Runs by_robot m k i
    pub fits : (i : ℕ) (t : Task R) → m.tasks i ≡ some t → TaskFits t

  -- No dictionary of running commands refers to task `i`.
  pub record Unreferenced (m : Manager R) (i : ℕ) : Type 0 where
    pub no_token : (k : String) → get k m.tokens ≢ some i
    pub not_active : (k : String) → get k m.active_commands ≢ some i

  pub Unreferenced-of_not_running :
      {m : Manager R} {i : ℕ} {t : Task R}
      → Inv m
      → m.tasks i ≡ some t
      → is_running t.phase ≡ false
      → Unreferenced m i
  Unreferenced-of_not_running {m} {i} v e idle = record {
    no_token = λ k h. let r = v.tokens_run k i h in ground (arith, r.at, r.running);
    not_active = λ k h. let r = v.active_run k i h in ground (arith, r.at, r.running);
  }

  pub below_next : {m : Manager R} {i : ℕ} {t : Task R} → Inv m → m.tasks i ≡ some t → i < m.next
  below_next {m} {i} v e = ground (arith, v.fresh i)

  pub Runs-set_other :
      {key : Task R → String} {m : Manager R} {k : String} {i j : ℕ} (t : Task R)
      → j ≢ i
      → Runs key m k j
      → Runs key (set_task i t m) k j
  Runs-set_other {i} {j} t ne r = record {
    task = r.task;
    at = ground (arith, r.at);
    running = r.running;
    keyed = r.keyed;
  }

  -- A task to which no dictionary refers may be replaced by one that fits its state.
  pub set_task-Inv :
      {m : Manager R} {i : ℕ} (t : Task R)
      → Inv m
      → i < m.next
      → Unreferenced m i
      → TaskFits t
      → Inv (set_task i t m)
  set_task-Inv {m} {i} t v lt u f = record {
    fresh = λ j h. ground (arith, v.fresh j);
    tokens_run = λ k j h.
        Runs-set_other {m = m} t (λ e. u.no_token k (subst (λ x. get k m.tokens ≡ some x) e h))
          (v.tokens_run k j h);
    active_run = λ k j h.
        Runs-set_other {m = m} t
          (λ e. u.not_active k (subst (λ x. get k m.active_commands ≡ some x) e h))
          (v.active_run k j h);
    fits = λ j s h. elim (Bool-cases (j ==ℕ i)) [
      | inl same ↦
          let found : ◌≡◌ {A = Option (Task R)} (some t) (some s) = rw same at h in
          let e : t ≡ s = cc in subst TaskFits e f
      | inr other ↦ v.fits j s (rw other at h)
    ];
  }

  -- The `finally` of `_execute_motion` keeps the invariant.
  pub release-Inv : {m : Manager R} (i : ℕ) (t : Task R) → Inv m → Inv (release i t m)
  unfolding release
  release-Inv {m} i t v = record {
    fresh = v.fresh;
    tokens_run = λ k j h.
        let r = v.tokens_run k j (ground (arith, get-pop t.command.command_id k m.tokens)) in
        record { task = r.task; at = r.at; running = r.running; keyed = r.keyed };
    active_run = λ k j h.
        let r = v.active_run k j (ground (arith, get-pop t.command.robot_id k m.active_commands)) in
        record { task = r.task; at = r.at; running = r.running; keyed = r.keyed };
    fits = v.fits;
  }

  -- After it, no dictionary refers to the task.
  pub release-Unreferenced :
      {m : Manager R} (i : ℕ) (t : Task R)
      → Inv m
      → m.tasks i ≡ some t
      → Unreferenced (release i t m) i
  unfolding release
  release-Unreferenced {m} i t v e = record {
    no_token = λ k h.
        let old : get k m.tokens ≡ some i =
          ground (arith, get-pop t.command.command_id k m.tokens) in
        let r = v.tokens_run k i old in
        let key : t.command.command_id ≡ k = ground (arith, r.at, r.keyed) in
        ground (arith, get-pop t.command.command_id k m.tokens, eq_iff t.command.command_id k);
    not_active = λ k h.
        let old : get k m.active_commands ≡ some i =
          ground (arith, get-pop t.command.robot_id k m.active_commands) in
        let r = v.active_run k i old in
        let key : t.command.robot_id ≡ k = ground (arith, r.at, r.keyed) in
        ground (arith, get-pop t.command.robot_id k m.active_commands, eq_iff t.command.robot_id k);
  }
