-- ===== src/Execution/Manager/Preserved.antt =====
-- Each stretch of `_execute`, each method and each wake-up keeps the invariant of the manager.
use ros2_mcp_server.Base.{
  ℕ, ◌<◌, String, ◌≡◌, refl, sym, ap, ◌∙◌, subst, ◌≢◌, inl, inr, Bool, true, false, Option, none,
  some, ◌==◌, eq_iff, ◌==ℕ◌, if◌then◌else◌, Dict, get, put, get-put, Except, ok, raised, Exception,
  arith, Bool-cases, Option-cases,
}
use ros2_mcp_server.Number.{Number}
use ros2_mcp_server.Contracts.Core.{Pose2D}
use ros2_mcp_server.Contracts.Results.{ToolResult}
use ros2_mcp_server.Execution.ErrorResults.{build_error_result}
use ros2_mcp_server.Execution.Planner.{Backend}
use ros2_mcp_server.Execution.Manager.Handlers.{
  Task, Manager, World, set_task, end_state, error_result, crash, begin_read, begin, end_read,
  finish_stop, stop_goals, begin_stop, cancel_token, cancel_by_id, other_id, active_task, release,
}
use ros2_mcp_server.Execution.Manager.Steps.{running_task, await_backend, end_motion}
use ros2_mcp_server.Execution.Manager.Invariant.{
  DoneFits, is_running, TaskFits, Runs, by_command, by_robot, Inv, Unreferenced, below_next,
  set_task-Inv, Runs-set_other, release-Inv, release-Unreferenced,
}

module _ {R : Type 0} where
  -- A task that may be moved on: it exists, and nothing refers to it as running.
  pub record Ready (m : Manager R) (i : ℕ) : Type 0 where
    pub inv : Inv m
    pub below : i < m.next
    pub free : Unreferenced m i

  pub set_Ready :
      {m : Manager R} {i : ℕ} → Ready m i → (t : Task R) → TaskFits t → Inv (set_task i t m)
  set_Ready r t f = set_task-Inv t r.inv r.below r.free f

  -- A task may be replaced by one with the same command at the same point.
  pub replace-Inv :
      {m : Manager R} {i : ℕ} {t : Task R} (t' : Task R)
      → Inv m
      → m.tasks i ≡ some t
      → t'.command ≡ t.command
      → t'.phase ≡ t.phase
      → Inv (set_task i t' m)
  replace-Inv {m} {i} {t} t' v e c p = record {
    fresh = λ j h. ground (arith, v.fresh j, below_next v e);
    tokens_run = λ k j h. again by_command k j (λ s q. cc) (v.tokens_run k j h);
    active_run = λ k j h. again by_robot k j (λ s q. cc) (v.active_run k j h);
    fits = λ j s h. elim (Bool-cases (j ==ℕ i)) [
      | inl same ↦
          let found : ◌≡◌ {A = Option (Task R)} (some t') (some s) = rw same at h in
          let q : t' ≡ s = cc in subst TaskFits q (rw (c, p) (v.fits i t e))
      | inr other ↦ v.fits j s (rw other at h)
    ];
  }
    where
      again :
          (key : Task R → String) (k : String) (j : ℕ)
          → ((s : Task R) → s ≡ t → key t' ≡ key s)
          → Runs key m k j
          → Runs key (set_task i t' m) k j
      again key k j same_key r = elim (Bool-cases (j ==ℕ i)) [
        | inl same ↦
            let here : j ≡ i = ground arith in
            let found : ◌≡◌ {A = Option (Task R)} (some r.task) (some t) =
              sym r.at ∙ ap m.tasks here ∙ e in
            let q : r.task ≡ t = cc in
            record {
              task = t';
              at = rw same;
              running = rw p (subst (λ (s : Task R). is_running s.phase ≡ true) q r.running);
              keyed = same_key r.task q ∙ r.keyed;
            }
        | inr other ↦ record {
          task = r.task;
          at = rw other r.at;
          running = r.running;
          keyed = r.keyed;
        }
      ]

  pub cancel_token-Inv : {m : Manager R} (i : ℕ) → Inv m → Inv (cancel_token i m)
  unfolding cancel_token
  cancel_token-Inv {m} i v = elim (Option-cases (m.tasks i)) [
    | inl e ↦ rw (e, cancel_token) v
    | inr (t, e) ↦ rw (e, cancel_token) (replace-Inv _ v e (ground arith) (ground arith))
  ]

  cancel_by_id-Inv : {m : Manager R} (c : Option String) → Inv m → Inv (cancel_by_id c m)
  unfolding cancel_by_id
  cancel_by_id-Inv none v = v
  cancel_by_id-Inv {m} (some c) v = elim (Option-cases (get c m.tokens)) [
    | inl e ↦ rw (e, cancel_by_id) v
    | inr (j, e) ↦ rw (e, cancel_by_id) (cancel_token-Inv j v)
  ]

  -- Cancelling a token changes tasks only.
  record SameRefs (m m' : Manager R) : Type 0 where
    same_next : m'.next ≡ m.next
    same_tokens : m'.tokens ≡ m.tokens
    same_active : m'.active_commands ≡ m.active_commands

  cancel_by_id-SameRefs : (m : Manager R) (c : Option String) → SameRefs m (cancel_by_id c m)
  unfolding cancel_by_id cancel_token
  cancel_by_id-SameRefs m none = ground arith
  cancel_by_id-SameRefs m (some c) = ground arith

  cancel_by_id-Ready :
      {m : Manager R} {i : ℕ} (c : Option String) → Ready m i → Ready (cancel_by_id c m) i
  cancel_by_id-Ready {m} {i} c r =
      let same = cancel_by_id-SameRefs m c in
      record {
        inv = cancel_by_id-Inv c r.inv;
        below = rw same.same_next r.below;
        free = record {
          no_token = λ k h. r.free.no_token k (rw same.same_tokens at h);
          not_active = λ k h. r.free.not_active k (rw same.same_active at h);
        };
      }

  -- A dictionary that gains a reference to a task that runs under the new key.
  start-Runs :
      (key : Task R → String) (m : Manager R) (i : ℕ) (t : Task R) (d : Dict ℕ)
      → ((k : String) (j : ℕ) → get k d ≡ some j → Runs key m k j)
      → ((k : String) → get k d ≢ some i)
      → is_running t.phase ≡ true
      → (k : String) (j : ℕ) → get k (put (key t) i d) ≡ some j
      → Runs key (set_task i t m) k j
  start-Runs key m i t d old free running k j h = elim (Bool-cases (key t == k)) [
    | inl same ↦
        let here : j ≡ i = ground (arith, get-put (key t) k i d) in
        record { task = t; at = ground arith; running = running; keyed = (eq_iff (key t) k).0 same }
    | inr other ↦
        let before : get k d ≡ some j = ground (arith, get-put (key t) k i d) in
        Runs-set_other {m = m} t (λ e. free k (subst (λ x. get k d ≡ some x) e before))
          (old k j before)
  ]

  pub if-Inv : (b : Bool) (x y : Manager R) → Inv x → Inv y → Inv (if b then x else y)
  if-Inv true x y v u = v
  if-Inv false x y v u = u

  pub release-Ready :
      {m : Manager R} {i : ℕ} (t : Task R) → Inv m → m.tasks i ≡ some t → Ready (release i t m) i
  unfolding release
  release-Ready {m} {i} t v e = record {
    inv = release-Inv i t v;
    below = below_next v e;
    free = release-Unreferenced i t v e;
  }

module _ {R : Type 0} ⦃n : Number R⦄ where
  pub crash-Inv :
      {m : Manager R} {i : ℕ} (w : World R) (t : Task R) (e : Exception)
      → Ready m i
      → Inv (crash w i t e m)
  unfolding crash error_result build_error_result
  crash-Inv w t e r = set_Ready r _ tt

  pub begin-Inv :
      {m : Manager R} {i : ℕ} (w : World R) (t : Task R) → Ready m i → Inv (begin w i t m)
  unfolding begin begin_read error_result build_error_result
  begin-Inv {m} {i} w t r =
      if-Inv _ _ _ (if-Inv _ _ _ (set_Ready r _ refl) (set_Ready r _ tt)) (set_Ready r _ refl)

  end_state-DoneFits : (r : ToolResult R) → DoneFits (end_state r) r.status
  end_state-DoneFits r = ground arith

  pub end_read-Inv :
      {m : Manager R} {i : ℕ} (w : World R) (t : Task R) (r : Except (ToolResult R))
      → Ready m i
      → Inv (end_read w i t r m)
  unfolding end_read
  end_read-Inv w t (ok r) v = set_Ready v _ (end_state-DoneFits r)
  end_read-Inv w t (raised e) v = crash-Inv w t e v

  pub finish_stop-Inv :
      {m : Manager R} {i : ℕ} (w : World R) (t : Task R) (c : Option String) (p : Option (Pose2D R))
      → Ready m i
      → Inv (finish_stop w i t c p m)
  unfolding finish_stop
  finish_stop-Inv w t c p r = set_Ready r _ tt

  pub stop_goals-Inv :
      {m : Manager R} {i : ℕ} (w : World R) (t : Task R) (c : Option String) (p : Option (Pose2D R))
      → Ready m i
      → Inv (stop_goals w i t c p m)
  unfolding stop_goals
  stop_goals-Inv w t c p r = if-Inv _ _ _ (set_Ready r _ refl) (finish_stop-Inv w t c p r)

  pub begin_stop-Inv :
      {m : Manager R} {i : ℕ} (w : World R) (t : Task R) → Ready m i → Inv (begin_stop w i t m)
  unfolding begin_stop
  begin_stop-Inv {m} w t r =
      let c = other_id t.command (active_task m t.command.robot_id) in
      let r' = cancel_by_id-Ready c r in
      if-Inv _ _ _ (set_Ready r' _ refl) (stop_goals-Inv w t c none r')

  -- Here, and here only, a task starts to run, under its two keys.
  pub await_backend-Inv :
      {m : Manager R} {i : ℕ} (w : World R) (t : Task R) (b : Backend)
      → Ready m i
      → Inv (await_backend w i t b m)
  unfolding await_backend
  await_backend-Inv {m} {i} w t b r =
      let v = set_Ready r (running_task w t b) refl in
      record {
        fresh = v.fresh;
        tokens_run = λ k j h.
            let s =
              start-Runs by_command m i (running_task w t b) m.tokens r.inv.tokens_run
                r.free.no_token refl k j h in
            record { task = s.task; at = s.at; running = s.running; keyed = s.keyed };
        active_run = λ k j h.
            let s =
              start-Runs by_robot m i (running_task w t b) m.active_commands r.inv.active_run
                r.free.not_active refl k j h in
            record { task = s.task; at = s.at; running = s.running; keyed = s.keyed };
        fits = v.fits;
      }

  pub end_motion-Inv :
      {m : Manager R} {i : ℕ} (t : Task R) (r : ToolResult R)
      → Inv m
      → m.tasks i ≡ some t
      → Inv (end_motion i t r m)
  unfolding end_motion
  end_motion-Inv {m} {i} t r v e = set_Ready (release-Ready t v e) _ (end_state-DoneFits r)
