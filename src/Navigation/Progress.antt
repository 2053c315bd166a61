-- ===== src/Navigation/Progress.antt =====
-- The end of `navigate` of adapters/navigation/nav2_plugin.py: once the token is cancelled, the
-- deadline reached or the goal done, only a few more answers are waited for.
use ros2_mcp_server.Base.{
  ℕ, zero, suc, ◌+◌, ◌≤◌, arith, ◌≡◌, ◌≢◌, refl, subst, Bool, true, false, if◌then◌else◌, Option,
  none, some, Except, ok, raised, ◌⊎◌, inl, inr,
}
use ros2_mcp_server.Number.{Number}
use ros2_mcp_server.Contracts.Core.{SemanticCommand, NavigateTarget}
use ros2_mcp_server.Contracts.Discovery.{CapabilityEntry}
use ros2_mcp_server.Capabilities.Registry.{find_entry}
use ros2_mcp_server.Navigation.{Plugin, Instant, resolve_final_pose}
use ros2_mcp_server.Navigation.Goal.{
  voyage, on_entry, is_late, poll, on_server, on_localization, on_goal_handle, on_pose, step, Stage,
  waiting_for_server, localizing, sending, polling, cancelling, draining, locating, ended, raising,
  Answer, server_ready, transform, goal_handle, slept, cancel_returned, waited, failed, Voyage,
  Stepped,
}
use ros2_mcp_server.Navigation.Voyages.{Await, sail}
use ros2_mcp_server.Navigation.Life.{Final, on_pose-Final}

module _ {R : Type 0} where
  -- How many more answers a stage can wait for.
  abbrev rank : Stage R → ℕ
  rank waiting_for_server = 7
  rank localizing = 6
  rank sending = 5
  rank (polling handle) = 4
  rank (cancelling o) = 3
  rank (draining o) = 2
  rank (locating o) = 1
  rank (ended result) = 0
  rank (raising e) = 0

  -- The answer is one to what the stage waits for, or what the wait raised.
  abbrev pub IsAwaited : Stage R → Answer R → Type 0
  IsAwaited waiting_for_server (server_ready b) = Unit
  IsAwaited waiting_for_server (failed e) = Unit
  IsAwaited localizing (failed e) = Unit
  IsAwaited sending (failed e) = Unit
  IsAwaited (locating o) (failed e) = Unit
  IsAwaited localizing (transform tf) = Unit
  IsAwaited sending (goal_handle b handle) = Unit
  IsAwaited (polling handle) slept = Unit
  IsAwaited (cancelling o) cancel_returned = Unit
  IsAwaited (draining o) (waited m) = Unit
  IsAwaited (locating o) (transform tf) = Unit
  IsAwaited (ended result) a = Unit
  IsAwaited (raising e) a = Unit
  IsAwaited _ _ = ⊥

  Final-rank : (s : Stage R) → rank s ≤ 0 → Final s
  Final-rank (ended result) h = tt
  Final-rank (raising e) h = tt
  Final-rank waiting_for_server h = absurd (omega arith)
  Final-rank localizing h = absurd (omega arith)
  Final-rank sending h = absurd (omega arith)
  Final-rank (polling handle) h = absurd (omega arith)
  Final-rank (cancelling o) h = absurd (omega arith)
  Final-rank (draining o) h = absurd (omega arith)
  Final-rank (locating o) h = absurd (omega arith)

  rank-Final : (s : Stage R) → Final s → rank s ≤ 0
  rank-Final (ended result) f = omega arith
  rank-Final (raising e) f = omega arith
  rank-Final waiting_for_server f = absurd f
  rank-Final localizing f = absurd f
  rank-Final sending f = absurd f
  rank-Final (polling handle) f = absurd f
  rank-Final (cancelling o) f = absurd f
  rank-Final (draining o) f = absurd f
  rank-Final (locating o) f = absurd f

  if-rank :
      (m : ℕ) (b : Bool) (s t : Stage R) → rank s ≤ m → rank t ≤ m → rank (if b then s else t) ≤ m
  if-rank m true s t x y = x
  if-rank m false s t x y = y

  if-falls :
      (m : ℕ) (b : Bool) (t u : Stepped R)
      → (b ≡ true → rank t.stage ≤ m)
      → (b ≡ false → rank u.stage ≤ m)
      → rank (if b then t else u).stage ≤ m
  if-falls m true t u x y = x refl
  if-falls m false t u x y = y refl

module _ {R : Type 0} ⦃n : Number R⦄ (v : Voyage R) where
  -- The token is cancelled, the deadline reached, or the goal done.
  abbrev pub IsDone : Instant R → Type 0
  IsDone i = (i.is_cancelled ≡ true) ⊎ (is_late v i ≡ true) ⊎ (i.result ≢ none)

module _ {R : Type 0} ⦃n : Number R⦄ (p : Plugin) (v : Voyage R) where
  server-falls : (b : Bool) (i : Instant R) → rank (on_server v b i) ≤ 6
  unfolding on_server
  server-falls b i = if-rank 6 b _ _ (entry (find_entry "localization" i.entries)) (omega arith)
    where
      entry : (o : Option (CapabilityEntry R)) → rank (on_entry v i o) ≤ 6
      entry none = omega arith
      entry (some e) = omega arith

  poll-accepted :
      (handle : ℕ) (r : Option (Except ℕ)) (i : Instant R) → rank (poll v handle r i).stage ≤ 4
  poll-accepted handle (some r) i = omega arith
  poll-accepted handle none i =
      if-falls 4 i.is_cancelled _ _ (λ _. omega arith)
        (λ _. if-falls 4 (is_late v i) _ _ (λ _. omega arith) (λ _. omega arith))

  poll-falls :
      (handle : ℕ) (r : Option (Except ℕ)) (i : Instant R)
      → i.result ≡ r
      → IsDone v i
      → rank (poll v handle r i).stage ≤ 3
  poll-falls handle (some r) i e h = omega arith
  poll-falls handle none i e h =
      if-falls 3 i.is_cancelled _ _ (λ _. omega arith)
        (λ c. if-falls 3 (is_late v i) _ _ (λ _. omega arith) (λ l. absurd (never c l h)))
    where
      never : i.is_cancelled ≡ false → is_late v i ≡ false → IsDone v i → ⊥
      never c l (inl k) = cc
      never c l (inr (inl k)) = cc
      never c l (inr (inr k)) = k e

  -- An awaited answer at such an instant lowers the rank.
  step-falls :
      (a : Answer R) (i : Instant R) (active : Option ℕ) (s : Stage R) (m : ℕ)
      → IsAwaited s a
      → IsDone v i
      → rank s ≤ suc m
      → rank (step p v a i active s).stage ≤ m
  unfolding step on_localization on_goal_handle
  step-falls (failed e) i active waiting_for_server m w d h = omega arith
  step-falls (failed e) i active localizing m w d h = omega arith
  step-falls (failed e) i active sending m w d h = omega arith
  step-falls (failed e) i active (locating o) m w d h = omega arith
  step-falls (server_ready b) i active waiting_for_server m w d h =
      let low = server-falls b i in omega arith
  step-falls (transform tf) i active localizing m w d h =
      if-falls m tf.ok _ _ (λ _. omega arith) (λ _. omega arith)
  step-falls (goal_handle b handle) i active sending m w d h =
      let low = poll-accepted handle i.result i in
      if-falls m b _ _ (λ _. omega arith) (λ _. omega arith)
  step-falls slept i active (polling handle) m w d h =
      let low = poll-falls handle i.result i refl d in omega arith
  step-falls cancel_returned i active (cancelling o) m w d h = omega arith
  step-falls (waited (ok u)) i active (draining o) m w d h = omega arith
  step-falls (waited (raised e)) i active (draining o) m w d h = omega arith
  step-falls (transform tf) i active (locating o) m w d h =
      let low =
        rank-Final (on_pose p v o (resolve_final_pose tf i) i)
          (on_pose-Final p v o (resolve_final_pose tf i) i) in
      omega arith
  step-falls a i active (ended result) m w d h = omega arith
  step-falls a i active (raising e) m w d h = omega arith
  step-falls _ i active _ m w d h = absurd w

module _ {R : Type 0} ⦃n : Number R⦄ (p : Plugin) (command : SemanticCommand R)
    (target : NavigateTarget R) where
  module _ (start : Instant R) (active : Option ℕ) (awaits : ℕ → Await R) where
    abbrev sailing : ℕ → Stage R
    sailing k = (sail p command target start active awaits k).stage

    rank_seven : (s : Stage R) → rank s ≤ 7
    rank_seven waiting_for_server = omega arith
    rank_seven localizing = omega arith
    rank_seven sending = omega arith
    rank_seven (polling handle) = omega arith
    rank_seven (cancelling o) = omega arith
    rank_seven (draining o) = omega arith
    rank_seven (locating o) = omega arith
    rank_seven (ended result) = omega arith
    rank_seven (raising e) = omega arith

    -- Seven answers after an instant from which on the token is cancelled, the deadline reached or
    -- the goal done, `navigate` has returned or raised, if every answer is one to what it waits for, or
    -- what that wait raised.
    pub sail-Final :
        (k : ℕ)
        → ((j : ℕ) → IsAwaited (sailing j) (awaits j).answer)
        → ((m : ℕ) → IsDone (voyage command target start) (awaits (k + m)).instant)
        → Final (sailing (k + 7))
    unfolding sail
    sail-Final k awaited done = Final-rank (sailing (k + 7)) (falls 7 0 (omega arith))
      where
        falls : (m r : ℕ) → m + r ≡ 7 → rank (sailing (k + m)) ≤ r
        falls zero r e =
            let seven : 7 ≡ r = omega arith in
            subst (λ x. rank (sailing (k + 0)) ≤ x) seven (rank_seven (sailing (k + 0)))
        falls (suc m) r e =
            let next : suc (k + m) ≡ k + suc m = omega arith in
            subst (λ x. rank (sailing x) ≤ r) next
              (step-falls p (voyage command target start) (awaits (k + m)).answer
                (awaits (k + m)).instant (awaits (k + m)).active_goal_handle (sailing (k + m)) r
                (awaited (k + m)) (done m) (falls m (suc r) (omega arith)))
