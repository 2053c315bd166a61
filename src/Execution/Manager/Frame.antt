-- ===== src/Execution/Manager/Frame.antt =====
-- What a stretch of a task leaves alone: the submissions in flight, the ids of all tasks, the results
-- that are there, and which task may get to run on a
-- backend, which the predicate `P` says.
use ros2_mcp_server.Base.{
  ℕ, String, ◌≡◌, refl, ◌∙◌, Bool, true, false, Option, none, some, ◌==ℕ◌, get, arith, Option-cases,
  Bool-cases, inl, inr, ◌⊎◌, subst,
}
use ros2_mcp_server.Contracts.Core.{ExecutionState}
use ros2_mcp_server.Contracts.Results.{ToolResult}
use ros2_mcp_server.Execution.Manager.Handlers.{
  Phase, done, Task, Manager, set_task, cancel_token, cancel_by_id, release,
}
use ros2_mcp_server.Execution.Manager.Invariant.{is_running}

module _ {R : Type 0} where
  -- The id of a task's command, and whether its submission has ended.
  abbrev pub label : Task R → String × Bool
  label t = (t.command.command_id, t.settled)

  abbrev pub label_at : Manager R → ℕ → Option (String × Bool)
  label_at m j = elim (m.tasks j) [ none ↦ none | some t ↦ some (label t) ]

  abbrev pub runs : Manager R → ℕ → Bool
  runs m j = elim (m.tasks j) [ none ↦ false | some t ↦ is_running t.phase ]

  abbrev pub ending : Phase R → ExecutionState → Option (ExecutionState × ToolResult R)
  ending (done r) st = some (st, r)
  ending _ st = none

  -- The final state and the result of a task, once it has them.
  abbrev pub result_at : Manager R → ℕ → Option (ExecutionState × ToolResult R)
  result_at m j = elim (m.tasks j) [
    | none ↦ none
    | some t ↦ ending t.phase t.command.execution_state
  ]

  pub record Frame (P : ℕ → Type 0) (m m' : Manager R) : Type 0 where
    pub flight : m'.in_flight ≡ m.in_flight
    pub bound : m'.next ≡ m.next
    pub labels : (j : ℕ) → label_at m' j ≡ label_at m j
    pub final :
        (j : ℕ) (x : ExecutionState × ToolResult R)
        → result_at m j ≡ some x
        → result_at m' j ≡ some x
    pub quiet : (j : ℕ) → runs m' j ≡ true → (runs m j ≡ true) ⊎ P j

  -- Task `i` is there under the label of `t`, without a result.
  pub record Owns (m : Manager R) (i : ℕ) (t : Task R) : Type 0 where
    pub labelled : label_at m i ≡ some (label t)
    pub unfinished : result_at m i ≡ none

  pub Frame-refl : {P : ℕ → Type 0} (m : Manager R) → Frame P m m
  Frame-refl m = record {
    flight = refl;
    bound = refl;
    labels = λ j. refl;
    final = λ j x h. h;
    quiet = λ j h. inl h;
  }

  pub Frame-trans :
      {P : ℕ → Type 0} {m m' m'' : Manager R} → Frame P m m' → Frame P m' m'' → Frame P m m''
  Frame-trans f g = record {
    flight = g.flight ∙ f.flight;
    bound = g.bound ∙ f.bound;
    labels = λ j. g.labels j ∙ f.labels j;
    final = λ j x h. g.final j x (f.final j x h);
    quiet = λ j h. elim (g.quiet j h) [ inl k ↦ f.quiet j k | inr p ↦ inr p ];
  }

  pub set_task-Frame :
      {P : ℕ → Type 0} {m : Manager R} {i : ℕ} (t u : Task R)
      → Owns m i t
      → label u ≡ label t
      → (is_running u.phase ≡ true → P i)
      → Frame P m (set_task i u m)
  set_task-Frame {P} {m} {i} t u o e permitted = record {
    flight = refl;
    bound = refl;
    labels = λ j. ground (arith, o.labelled, e);
    final = λ j x h. ground (arith, o.unfinished, h);
    quiet = λ j h. elim (Bool-cases (j ==ℕ i)) [
      | inl same ↦
          let here : is_running u.phase ≡ true = ground (arith, same, h) in
          let at : i ≡ j = ground arith in inr (subst P at (permitted here))
      | inr other ↦ inl (ground (arith, other, h))
    ];
  }

  pub release-Frame :
      {P : ℕ → Type 0} (i : ℕ) (t : Task R) (m : Manager R) → Frame P m (release i t m)
  unfolding release
  release-Frame i t m = record {
    flight = refl;
    bound = refl;
    labels = λ j. refl;
    final = λ j x h. h;
    quiet = λ j h. inl h;
  }

  pub cancel_token-Frame : {P : ℕ → Type 0} (i : ℕ) (m : Manager R) → Frame P m (cancel_token i m)
  unfolding cancel_token
  cancel_token-Frame i m = record {
    flight = ground arith;
    bound = ground arith;
    labels = λ j. ground arith;
    final = λ j x h. ground (arith, h);
    quiet = λ j h. inl (ground (arith, h));
  }

  pub cancel_by_id-Frame :
      {P : ℕ → Type 0} (o : Option String) (m : Manager R) → Frame P m (cancel_by_id o m)
  unfolding cancel_by_id
  cancel_by_id-Frame none m = Frame-refl m
  cancel_by_id-Frame (some c) m = elim (Option-cases (get c m.tokens)) [
    | inl e ↦ rw (e, cancel_by_id) (Frame-refl m)
    | inr (j, e) ↦ rw (e, cancel_by_id) (cancel_token-Frame j m)
  ]

  cancel_token-result : (i j : ℕ) (m : Manager R) → result_at (cancel_token i m) j ≡ result_at m j
  unfolding cancel_token
  cancel_token-result i j m = ground arith

  cancel_by_id-result :
      (o : Option String) (j : ℕ) (m : Manager R) → result_at (cancel_by_id o m) j ≡ result_at m j
  unfolding cancel_by_id
  cancel_by_id-result none j m = refl
  cancel_by_id-result (some c) j m = elim (Option-cases (get c m.tokens)) [
    | inl e ↦ rw (e, cancel_by_id) refl
    | inr (i, e) ↦ rw (e, cancel_by_id) (cancel_token-result i j m)
  ]

  pub cancel_by_id-Owns :
      {m : Manager R} {i : ℕ} {t : Task R} (o : Option String)
      → Owns m i t
      → Owns (cancel_by_id o m) i t
  cancel_by_id-Owns {m} {i} o v = record {
    labelled = (cancel_by_id-Frame {P = λ _. Unit} o m).labels i ∙ v.labelled;
    unfinished = cancel_by_id-result o i m ∙ v.unfinished;
  }
