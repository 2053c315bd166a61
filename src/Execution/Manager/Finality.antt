-- ===== src/Execution/Manager/Finality.antt =====
-- Over every history of the manager: a result that a task has is never replaced.
use ros2_mcp_server.Base.{
  ℕ, String, ◌≡◌, ◌≢◌, All, Option, none, List, [], ◌∷◌, some, get, Option-cases, inl, inr, arith,
}
use ros2_mcp_server.Number.{Number}
use ros2_mcp_server.Contracts.Core.{ExecutionState, SemanticCommand}
use ros2_mcp_server.Contracts.Results.{ToolResult}
use ros2_mcp_server.Execution.Manager.Handlers.{Manager}
use ros2_mcp_server.Execution.Manager.Steps.{submit, settle, wake_task, cancel, on_progress}
use ros2_mcp_server.Execution.Manager.Events.{
  Event, submits, wakes, settles, cancels, subscribes, step, run, init,
}
use ros2_mcp_server.Execution.Manager.Invariant.{Inv}
use ros2_mcp_server.Execution.Manager.Reachable.{run-Inv, step-Inv}
use ros2_mcp_server.Execution.Manager.Frame.{label_at, result_at}
use ros2_mcp_server.Execution.Manager.Permitted.{wake_task-Frame}
use ros2_mcp_server.Execution.Manager.NonBypass.{cancel-Frame, on_progress-Frame}

module _ {R : Type 0} where
  submit-final :
      (c : SemanticCommand R) (start : R) (m : Manager R) (j : ℕ)
      (x : ExecutionState × ToolResult R)
      → Inv m
      → result_at m j ≡ some x
      → result_at (submit c start m).0 j ≡ some x
  unfolding submit
  submit-final c start m j x v h = elim (Option-cases (get c.command_id m.in_flight)) [
    | inl e ↦ ground (arith, e, h, v.fresh j)
    | inr (i, e) ↦ ground (arith, e, h)
  ]

  settle-final :
      (i : ℕ) (m : Manager R) (j : ℕ) (x : ExecutionState × ToolResult R)
      → result_at m j ≡ some x
      → result_at (settle i m) j ≡ some x
  unfolding settle
  settle-final i m j x h = elim (Option-cases (m.tasks i)) [
    | inl e ↦ ground (arith, e, h)
    | inr (t, e) ↦ ground (arith, e, h)
  ]

  -- The id of a task's command.
  abbrev pub id_at : Manager R → ℕ → Option String
  id_at m i = elim (m.tasks i) [ none ↦ none | some t ↦ some t.command.command_id ]

  -- The event does not submit the command with the id `k`.
  abbrev pub IsOther : String → Event R → Type 0
  IsOther k (submits c start) = c.command_id ≢ k
  IsOther k _ = Unit

  kept_id :
      (k : String) (m m' : Manager R) (i : ℕ)
      → label_at m' i ≡ label_at m i
      → id_at m' i ≡ some k
      → id_at m i ≡ some k
  kept_id k m m' i e h = ground (arith, e, h, Option-cases (m.tasks i), Option-cases (m'.tasks i))

  submit-id_at :
      (k : String) (c : SemanticCommand R) (start : R) (m : Manager R)
      → c.command_id ≢ k
      → (i : ℕ) → id_at (submit c start m).0 i ≡ some k
      → id_at m i ≡ some k
  unfolding submit
  submit-id_at k c start m o i h = elim (Option-cases (get c.command_id m.in_flight)) [
    | inl e ↦ ground (arith, e, h, o)
    | inr (j, e) ↦ ground (arith, e, h)
  ]

  settle-id_at :
      (k : String) (j : ℕ) (m : Manager R) (i : ℕ)
      → id_at (settle j m) i ≡ some k
      → id_at m i ≡ some k
  unfolding settle
  settle-id_at k j m i h = elim (Option-cases (m.tasks j)) [
    | inl e ↦ ground (arith, e, h)
    | inr (t, e) ↦ ground (arith, e, h)
  ]

module _ {R : Type 0} ⦃n : Number R⦄ where
  step-final :
      (m : Manager R) (e : Event R) (j : ℕ) (x : ExecutionState × ToolResult R)
      → Inv m
      → result_at m j ≡ some x
      → result_at (step m e) j ≡ some x
  unfolding step
  step-final m (submits c start) j x v h = submit-final c start m j x v h
  step-final m (wakes w i wake) j x v h =
      (wake_task-Frame {P = λ _. Unit} w i wake (λ t e p. tt)).final j x h
  step-final m (settles i) j x v h = settle-final i m j x h
  step-final m (cancels c) j x v h = (cancel-Frame {P = λ _. Unit} c m).final j x h
  step-final m (subscribes c callback) j x v h =
      (on_progress-Frame {P = λ _. Unit} c callback m).final j x h

  run_from-final :
      (m : Manager R) (es : List (Event R)) (j : ℕ) (x : ExecutionState × ToolResult R)
      → Inv m
      → result_at m j ≡ some x
      → result_at (run m es) j ≡ some x
  unfolding run
  run_from-final m [] j x v h = h
  run_from-final m (e ∷ es) j x v h =
      run_from-final (step m e) es j x (step-Inv e v) (step-final m e j x v h)

  step-id_at :
      (k : String) (m : Manager R) (e : Event R)
      → IsOther k e
      → (i : ℕ) → id_at (step m e) i ≡ some k
      → id_at m i ≡ some k
  unfolding step
  step-id_at k m (submits c start) o i h = submit-id_at k c start m o i h
  step-id_at k m (wakes w j wake) o i h =
      kept_id k m (wake_task w j wake m) i
        ((wake_task-Frame {P = λ _. Unit} w j wake (λ t e p. tt)).labels i) h
  step-id_at k m (settles j) o i h = settle-id_at k j m i h
  step-id_at k m (cancels c) o i h =
      kept_id k m (cancel c m).0 i ((cancel-Frame {P = λ _. Unit} c m).labels i) h
  step-id_at k m (subscribes c callback) o i h =
      kept_id k m (on_progress c callback m) i
        ((on_progress-Frame {P = λ _. Unit} c callback m).labels i) h

  run_from-id_at :
      (k : String) (m : Manager R) (es : List (Event R))
      → All (IsOther k) es
      → (i : ℕ) → id_at (run m es) i ≡ some k
      → id_at m i ≡ some k
  unfolding run
  run_from-id_at k m [] o i h = h
  run_from-id_at k m (e ∷ es) o i h =
      step-id_at k m e o.0 i (run_from-id_at k (step m e) es o.1 i h)

  -- Once the command of just one task has reached a final state with a result, neither the state nor the
  -- result changes in any continuation in which that command is not submitted again: no late wake-up,
  -- stop or cancellation and no submission of another command rewrites it, and no other task comes to
  -- have the command.
  pub run-final :
      (es later : List (Event R)) (j : ℕ) (k : String) (x : ExecutionState × ToolResult R)
      → ((i : ℕ) → id_at (run init es) i ≡ some k → i ≡ j)
      → result_at (run init es) j ≡ some x
      → All (IsOther k) later
      → (result_at (run (run init es) later) j ≡ some x)
        × ((i : ℕ) → id_at (run (run init es) later) i ≡ some k → i ≡ j)
  run-final es later j k x once h o = (
    run_from-final (run init es) later j x (run-Inv es) h,
    λ i e. once i (run_from-id_at k (run init es) later o i e),
  )
