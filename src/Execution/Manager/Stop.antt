-- ===== src/Execution/Manager/Stop.antt =====
-- Which tasks `_handle_stop` of execution/manager.py reaches before its first await.
use ros2_mcp_server.Base.{
  ℕ, String, ◌≡◌, refl, ◌∙◌, ◌⊎◌, ◌≢◌, ◌↔◌, eq_iff, Bool-cases, Bool, true, false, Option, none,
  some, get, ◌==ℕ◌, arith, Option-cases, inl, inr,
}
use ros2_mcp_server.Number.{Number}
use ros2_mcp_server.Contracts.Core.{SemanticCommand}
use ros2_mcp_server.Execution.Manager.Handlers.{
  Task, Token, Manager, World, cancel_token, cancel_task, cancel_by_id, begin_stop, stop_goals,
  finish_stop, other_id, active_task, refers_to,
}

module _ {R : Type 0} where
  -- The token that stands under the id is that of task `j`.
  abbrev pub reaches : Manager R → Option String → ℕ → Bool
  reaches m none j = false
  reaches m (some command_id) j = refers_to (get command_id m.tokens) j

  abbrev pub with_cancelled : Bool → Option (Task R) → Option (Task R)
  with_cancelled true (some t) = some (cancel_task t)
  with_cancelled _ o = o

  cancel_token-tasks :
      (i j : ℕ) (m : Manager R) → (cancel_token i m).tasks j ≡ with_cancelled (i ==ℕ j) (m.tasks j)
  unfolding cancel_token
  cancel_token-tasks i j m = ground arith

  cancel_by_id-tasks :
      (o : Option String) (j : ℕ) (m : Manager R)
      → (cancel_by_id o m).tasks j ≡ with_cancelled (reaches m o j) (m.tasks j)
  unfolding cancel_by_id
  cancel_by_id-tasks none j m = refl
  cancel_by_id-tasks (some c) j m = elim (Option-cases (get c m.tokens)) [
    | inl e ↦ rw (e, cancel_by_id) refl
    | inr (i, e) ↦ rw (e, cancel_by_id) (cancel_token-tasks i j m)
  ]

  abbrev cancelled_token : Option (Token R) → Option (Token R)
  cancelled_token none = none
  cancelled_token (some token) = some (record token { cancelled = true })

  -- The task with its token cancelled, if it has one.
  abbrev pub with_token_cancelled : Option (Task R) → Option (Task R)
  with_token_cancelled none = none
  with_token_cancelled (some u) = some (record u { token = cancelled_token u.token })

  with_cancelled-true : (o : Option (Task R)) → with_cancelled true o ≡ with_token_cancelled o
  with_cancelled-true none = refl
  with_cancelled-true (some u) = ground (arith, Option-cases u.token)

  -- The token that the stop `c` has to cancel is that of task `j`: the robot of `c` has an active
  -- command, which is not `c`, and the token registered under its id is that of `j`.
  pub record IsStopped (m : Manager R) (c : SemanticCommand R) (j : ℕ) : Type 0 where
    pub active : ℕ
    pub task : Task R
    pub is_active : get c.robot_id m.active_commands ≡ some active
    pub at : m.tasks active ≡ some task
    pub differs : task.command.command_id ≢ c.command_id
    pub registered : get task.command.command_id m.tokens ≡ some j

  reaches-IsStopped :
      (m : Manager R) (c : SemanticCommand R) (j : ℕ)
      → (reaches m (other_id c (active_task m c.robot_id)) j ≡ true) ↔ IsStopped m c j
  reaches-IsStopped m c j = elim (Option-cases (get c.robot_id m.active_commands)) [
    | inl e ↦ (λ h. absurd (ground (arith, e)), λ v. absurd (cc (e, v.is_active)))
    | inr (k, e) ↦ elim (Option-cases (m.tasks k)) [
      | inl f ↦ (λ h. absurd (ground (arith, e, f)), λ v. absurd (cc (e, f, v.is_active, v.at)))
      | inr (u, f) ↦ (
        λ h. record {
          active = k;
          task = u;
          is_active = e;
          at = f;
          differs = λ q. ground (arith, e, f, h, (eq_iff u.command.command_id c.command_id).1 q);
          registered = ground (arith, e, f, h, Option-cases (get u.command.command_id m.tokens));
        },
        λ v.
            let same : v.task ≡ u = cc in
            ground (
              arith,
              e,
              f,
              eq_iff u.command.command_id c.command_id,
              v.differs,
              v.registered,
              same,
            ),
      )
    ]
  ]

module _ {R : Type 0} ⦃n : Number R⦄ where
  begin_stop-reaches :
      (w : World R) (i : ℕ) (t : Task R) (m : Manager R) (j : ℕ)
      → j ≢ i
      → (begin_stop w i t m).tasks j
        ≡ with_cancelled
            (reaches m (other_id t.command (active_task m t.command.robot_id)) j)
            (m.tasks j)
  unfolding begin_stop stop_goals finish_stop
  begin_stop-reaches w i t m j other =
      let c = other_id t.command (active_task m t.command.robot_id) in
      let cancelled = cancel_by_id-tasks c j m in ground (arith, cancelled, other)

  -- Of the other tasks, a stop cancels exactly that whose token is registered under the id of the
  -- robot's active command, where that is another command than the stop: nothing but the token of that
  -- task changes, and every other task stays as it is.
  pub begin_stop-tasks :
      (w : World R) (i : ℕ) (t : Task R) (m : Manager R) (j : ℕ)
      → j ≢ i
      → (IsStopped m t.command j
          × ((begin_stop w i t m).tasks j ≡ with_token_cancelled (m.tasks j)))
        ⊎ ((¬ IsStopped m t.command j) × ((begin_stop w i t m).tasks j ≡ m.tasks j))
  begin_stop-tasks w i t m j other =
      let found = reaches-IsStopped m t.command j in
      let reached = begin_stop-reaches w i t m j other in
      elim (Bool-cases (reaches m (other_id t.command (active_task m t.command.robot_id)) j)) [
        | inl e ↦ inl (found.0 e, (rw e at reached) ∙ with_cancelled-true (m.tasks j))
        | inr e ↦ inr ((λ s. absurd (cc (found.1 s, e))), rw e at reached)
      ]
