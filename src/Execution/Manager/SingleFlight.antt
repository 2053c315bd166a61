-- ===== src/Execution/Manager/SingleFlight.antt =====
-- Over every history of the manager: `submit` keeps at most one open task for each command id.
use ros2_mcp_server.Base.{
  ℕ, String, ◌≡◌, refl, sym, subst, ◌∙◌, false, not, ◌&&◌, List, [], ◌∷◌, none, some, get, get-put,
  get-pop, eq_iff, Bool-cases, Option-cases, inl, inr, arith,
}
use ros2_mcp_server.Number.{Number}
use ros2_mcp_server.Contracts.Core.{SemanticCommand}
use ros2_mcp_server.Execution.Manager.Handlers.{Task, Manager}
use ros2_mcp_server.Execution.Manager.Steps.{submit, settle, settle_task, is_done}
use ros2_mcp_server.Execution.Manager.Events.{
  Event, submits, wakes, settles, cancels, subscribes, step, run, init,
}
use ros2_mcp_server.Execution.Manager.Invariant.{Inv}
use ros2_mcp_server.Execution.Manager.Reachable.{init-Inv, step-Inv}
use ros2_mcp_server.Execution.Manager.Frame.{Frame, label_at}
use ros2_mcp_server.Execution.Manager.Permitted.{wake_task-Frame}
use ros2_mcp_server.Execution.Manager.NonBypass.{cancel-Frame, on_progress-Frame}

module _ {R : Type 0} where
  -- `_in_flight` holds exactly the tasks whose submission has not ended, each under its command id.
  pub record Flight (m : Manager R) : Type 0 where
    pub entered : (k : String) (i : ℕ) → get k m.in_flight ≡ some i → label_at m i ≡ some (k, false)
    pub held : (k : String) (i : ℕ) → label_at m i ≡ some (k, false) → get k m.in_flight ≡ some i

  Frame-Flight : {m m' : Manager R} → Frame (λ _. Unit) m m' → Flight m → Flight m'
  Frame-Flight {m} {m'} f v = record {
    entered = λ k i h. f.labels i ∙ v.entered k i (subst (λ d. get k d ≡ some i) f.flight h);
    held =
        λ k i h. subst (λ d. get k d ≡ some i) (sym f.flight) (v.held k i (sym (f.labels i) ∙ h));
  }

  submit_new-Flight :
      (c : SemanticCommand R) (start : R) (m : Manager R)
      → get c.command_id m.in_flight ≡ none
      → label_at m m.next ≡ none
      → Flight m
      → Flight (submit c start m).0
  unfolding submit
  submit_new-Flight c start m e fresh v =
      rw (e, submit)
        (record {
          entered = λ k i h. ground (
            arith,
            get-put c.command_id k m.next m.in_flight,
            eq_iff c.command_id k,
            v.entered k i,
            fresh,
          );
          held = λ k i h. ground (
            arith,
            get-put c.command_id k m.next m.in_flight,
            eq_iff c.command_id k,
            v.held k i,
            fresh,
            e,
          );
        })

  submit-Flight :
      (c : SemanticCommand R) (start : R) (m : Manager R)
      → Inv m
      → Flight m
      → Flight (submit c start m).0
  unfolding submit
  submit-Flight c start m v f = elim (Option-cases (get c.command_id m.in_flight)) [
    | inl e ↦ submit_new-Flight c start m e (ground (arith, v.fresh m.next)) f
    | inr (i, e) ↦ rw (e, submit) f
  ]

  settled_task-Flight :
      (i : ℕ) (t : Task R) (m : Manager R)
      → m.tasks i ≡ some t
      → Flight m
      → Flight (settle_task i t m)
  settled_task-Flight i t m e v = elim (Bool-cases (is_done t.phase && not t.settled)) [
    | inr open_still ↦ rw (settle_task, open_still) v
    | inl over ↦
        let unsettled : t.settled ≡ false = ground (arith, over) in
        let here : label_at m i ≡ some (t.command.command_id, false) =
          ground (arith, e, unsettled) in
        let own = v.held t.command.command_id i here in
        rw (settle_task, over)
          (record {
            entered = λ k j h. ground (
              arith,
              get-pop t.command.command_id k m.in_flight,
              eq_iff t.command.command_id k,
              v.entered k j,
              here,
            );
            held = λ k j h. ground (
              arith,
              get-pop t.command.command_id k m.in_flight,
              eq_iff t.command.command_id k,
              v.held k j,
              own,
            );
          })
  ]

  settle-Flight : (i : ℕ) (m : Manager R) → Flight m → Flight (settle i m)
  unfolding settle
  settle-Flight i m v = elim (Option-cases (m.tasks i)) [
    | inl e ↦ rw (e, settle) v
    | inr (t, e) ↦ rw (e, settle) (settled_task-Flight i t m e v)
  ]

module _ {R : Type 0} ⦃n : Number R⦄ where
  step-Flight : (m : Manager R) (e : Event R) → Inv m → Flight m → Flight (step m e)
  unfolding step
  step-Flight m (submits c start) v f = submit-Flight c start m v f
  step-Flight m (wakes w i wake) v f = Frame-Flight (wake_task-Frame w i wake (λ t e p. tt)) f
  step-Flight m (settles i) v f = settle-Flight i m f
  step-Flight m (cancels c) v f = Frame-Flight (cancel-Frame c m) f
  step-Flight m (subscribes c callback) v f = Frame-Flight (on_progress-Frame c callback m) f

  run_from-Flight : (m : Manager R) (es : List (Event R)) → Inv m → Flight m → Flight (run m es)
  unfolding run
  run_from-Flight m [] v f = f
  run_from-Flight m (e ∷ es) v f =
      run_from-Flight (step m e) es (step-Inv e v) (step-Flight m e v f)

  run-Flight : (es : List (Event R)) → Flight (run init es)
  unfolding get
  run-Flight es =
      run_from-Flight init es init-Inv
        (record { entered = λ k i h. absurd (cc); held = λ k i h. absurd (cc) })

  -- After any history, if a task's submission has not ended, submitting its command id again starts
  -- nothing: the manager stays as it is and the caller waits for that very task. So no two tasks with
  -- open submissions share a command id.
  pub submit-single_flight :
      (es : List (Event R)) (i : ℕ) (c : SemanticCommand R) (start : R)
      → label_at (run init es) i ≡ some (c.command_id, false)
      → (submit c start (run init es) ≡ (run init es, i))
        × ((j : ℕ) → label_at (run init es) j ≡ some (c.command_id, false) → j ≡ i)
  unfolding submit
  submit-single_flight es i c start h =
      let f = run-Flight es in
      let found = f.held c.command_id i h in
      (rw (found, submit) refl, λ j k. let other = f.held c.command_id j k in ground arith)
