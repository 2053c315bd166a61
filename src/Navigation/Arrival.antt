-- ===== src/Navigation/Arrival.antt =====
-- What a successful `navigate` of adapters/navigation/nav2_plugin.py has behind it.
use ros2_mcp_server.Base.{
  ℕ, zero, suc, ◌==ℕ◌, ◌≡◌, refl, ap, subst, Bool, true, false, if◌then◌else◌, List, [], ◌∷◌, ◌++◌,
  Option, none, some, Except, ok, raised, contains, ◌⊎◌, inl, inr,
}
use ros2_mcp_server.Number.{Number}
use ros2_mcp_server.Contracts.Core.{Pose2D, SemanticCommand, NavigateTarget}
use ros2_mcp_server.Contracts.Results.{ToolResult, Status}
use ros2_mcp_server.Contracts.Discovery.{CapabilityEntry}
use ros2_mcp_server.Capabilities.Registry.{find_entry}
use ros2_mcp_server.Navigation.{
  Plugin, Instant, GoalMessage, TransformResult, goal_message, resolve_final_pose,
}
use ros2_mcp_server.Navigation.Goal.{
  voyage, wait, unknown_frame, on_entry, frame, begin, is_late, poll, on_server, on_localization,
  on_goal_handle, by_status, by_result, conclude, on_pose, step, Outcome, cancelled, timed_out,
  Stage, waiting_for_server, localizing, sending, polling, cancelling, draining, locating, ended,
  raising, Request, send_goal, cancel_goal, Answer, server_ready, transform, goal_handle, slept,
  cancel_returned, waited, failed, Voyage, Stepped,
}
use ros2_mcp_server.Navigation.Voyages.{Await, sail}

module _ {R : Type 0} ⦃n : Number R⦄ (p : Plugin) (v : Voyage R) where
  -- The goal of the command, sent once, and nothing else asked.
  abbrev pub SentOnly : List (Request R) → Type 0
  SentOnly asked = asked ≡ send_goal (goal_message (frame v) v.target) ∷ []

  -- The server's answer at the instant is that the goal succeeded.
  abbrev pub AnswersSuccess : Instant R → Type 0
  AnswersSuccess i =
      (status : ℕ) × (i.result ≡ some (ok status)) × (status ==ℕ p.status_succeeded ≡ true)

  -- A result that failed, or that succeeded on the answer at `i`, with nothing but the goal asked.
  pub data Honest (i : Instant R) (asked : List (Request R)) (result : ToolResult R) : Type 0 where
    gave_up : result.status ≡ Status.failed → Honest i asked result
    got_there :
        result.status ≡ Status.succeeded → SentOnly asked → AnswersSuccess i → Honest i asked result

  -- What has been asked by a stage, for a result given at `i`.
  abbrev Asked : Instant R → List (Request R) → Stage R → Type 0
  Asked i asked waiting_for_server = asked ≡ []
  Asked i asked localizing = asked ≡ []
  Asked i asked sending = SentOnly asked
  Asked i asked (polling handle) = SentOnly asked
  Asked i asked (locating none) = SentOnly asked
  Asked i asked (ended result) = Honest i asked result
  Asked i asked _ = Unit

  abbrev Steps : Instant R → List (Request R) → Stepped R → Type 0
  Steps i asked t = Asked i (t.requests ++ asked) t.stage

  if-Steps :
      (i : Instant R) (asked : List (Request R)) (b : Bool) (t u : Stepped R)
      → Steps i asked t
      → Steps i asked u
      → Steps i asked (if b then t else u)
  if-Steps i asked true t u x y = x
  if-Steps i asked false t u x y = y

  if-Asked :
      (i : Instant R) (asked : List (Request R)) (b : Bool) (s t : Stage R)
      → (b ≡ true → Asked i asked s)
      → (b ≡ false → Asked i asked t)
      → Asked i asked (if b then s else t)
  if-Asked i asked true s t x y = x refl
  if-Asked i asked false s t x y = y refl

  by_status-Asked :
      (i : Instant R) (asked : List (Request R)) (pose : Option (Pose2D R)) (status : ℕ)
      → i.result ≡ some (ok status)
      → SentOnly asked
      → Asked i asked (by_status p v pose status i)
  unfolding by_status ros2_mcp_server.Navigation.Goal.fail ros2_mcp_server.Navigation.Goal.arrived
  by_status-Asked i asked pose status e sent =
      if-Asked i asked (status ==ℕ p.status_succeeded) _ _ (λ h. got_there refl sent (status, e, h))
        (λ h.
          if-Asked i asked (status ==ℕ p.status_canceled) _ _ (λ k. gave_up refl)
            (λ k. gave_up refl))

  by_result-Asked :
      (i : Instant R) (asked : List (Request R)) (pose : Option (Pose2D R)) (r : Option (Except ℕ))
      → i.result ≡ r
      → SentOnly asked
      → Asked i asked (by_result p v pose r i)
  unfolding ros2_mcp_server.Navigation.Goal.fail
  by_result-Asked i asked pose none e sent = gave_up refl
  by_result-Asked i asked pose (some (raised x)) e sent = tt
  by_result-Asked i asked pose (some (ok status)) e sent =
      by_status-Asked i asked pose status e sent

  on_pose-Asked :
      (i : Instant R) (asked : List (Request R)) (o : Option Outcome)
      (m : Except (Option (Pose2D R)))
      → Asked i asked (locating o)
      → Asked i asked (on_pose p v o m i)
  unfolding ros2_mcp_server.Navigation.Goal.fail
  on_pose-Asked i asked o (raised e) h = tt
  on_pose-Asked i asked (some cancelled) (ok pose) h = gave_up refl
  on_pose-Asked i asked (some timed_out) (ok pose) h = gave_up refl
  on_pose-Asked i asked none (ok pose) h = by_result-Asked i asked pose i.result refl h

  poll-Asked :
      (i : Instant R) (asked : List (Request R)) (handle : ℕ) (r : Option (Except ℕ))
      → SentOnly asked
      → Steps i asked (poll v handle r i)
  poll-Asked i asked handle (some r) sent = sent
  poll-Asked i asked handle none sent =
      if-Steps i asked i.is_cancelled _ _ tt (if-Steps i asked (is_late v i) _ _ tt sent)

  entry-Asked :
      (i : Instant R) (asked : List (Request R)) (o : Option (CapabilityEntry R))
      → asked ≡ []
      → Asked i asked (on_entry v i o)
  unfolding ros2_mcp_server.Navigation.Goal.fail
  entry-Asked i asked none h = gave_up refl
  entry-Asked i asked (some e) h = h

  server-Asked :
      (i : Instant R) (asked : List (Request R)) (b : Bool)
      → asked ≡ []
      → Asked i asked (on_server v b i)
  unfolding on_server ros2_mcp_server.Navigation.Goal.fail
  server-Asked i asked true h = entry-Asked i asked (find_entry "localization" i.entries) h
  server-Asked i asked false h = gave_up refl

  localization-Asked :
      (i : Instant R) (asked : List (Request R)) (active : Option ℕ) (tf : TransformResult R)
      → asked ≡ []
      → Steps i asked (on_localization p v active tf i)
  unfolding on_localization ros2_mcp_server.Navigation.Goal.fail
  localization-Asked i asked active tf h =
      if-Steps i asked tf.ok _ _ (ap (λ x. send_goal (goal_message (frame v) v.target) ∷ x) h)
        (gave_up refl)

  handle-Asked :
      (i : Instant R) (asked : List (Request R)) (active : Option ℕ) (b : Bool) (handle : ℕ)
      → SentOnly asked
      → Steps i asked (on_goal_handle v active b handle i)
  unfolding on_goal_handle ros2_mcp_server.Navigation.Goal.fail
  handle-Asked i asked active b handle h =
      if-Steps i asked b _ _ (poll-Asked i asked handle i.result h) (gave_up refl)

  module _ (start : Instant R) (active : Option ℕ) (awaits : ℕ → Await R) where
    -- The instants of the first `k` awaits, and the one at the start.
    abbrev pub Occurs : ℕ → Instant R → Type 0
    Occurs zero i = i ≡ start
    Occurs (suc k) i = (i ≡ (awaits k).instant) ⊎ Occurs k i

    -- What has been asked by a stage, for a result given at an instant of the first `k` awaits.
    abbrev Kept : ℕ → List (Request R) → Stage R → Type 0
    Kept k asked (ended result) = (i : Instant R) × Occurs k i × Honest i asked result
    Kept k asked stage = Asked start asked stage

    Kept-at :
        (k : ℕ) (i : Instant R) (asked : List (Request R)) (s : Stage R)
        → Occurs k i
        → Asked i asked s
        → Kept k asked s
    Kept-at k i asked (ended result) o h = (i, o, h)
    Kept-at k i asked waiting_for_server o h = h
    Kept-at k i asked localizing o h = h
    Kept-at k i asked sending o h = h
    Kept-at k i asked (polling handle) o h = h
    Kept-at k i asked (cancelling _) o h = tt
    Kept-at k i asked (draining _) o h = tt
    Kept-at k i asked (locating none) o h = h
    Kept-at k i asked (locating (some _)) o h = tt
    Kept-at k i asked (raising e) o h = tt

    Kept-later :
        (k : ℕ) (asked : List (Request R)) (s : Stage R) → Kept k asked s → Kept (suc k) asked s
    Kept-later k asked (ended result) (i, o, h) = (i, inr o, h)
    Kept-later k asked waiting_for_server h = h
    Kept-later k asked localizing h = h
    Kept-later k asked sending h = h
    Kept-later k asked (polling handle) h = h
    Kept-later k asked (cancelling _) h = tt
    Kept-later k asked (draining _) h = tt
    Kept-later k asked (locating none) h = h
    Kept-later k asked (locating (some _)) h = tt
    Kept-later k asked (raising e) h = tt

    abbrev Goes : ℕ → List (Request R) → Stepped R → Type 0
    Goes k asked t = Kept k (t.requests ++ asked) t.stage

    Goes-at :
        (k : ℕ) (asked : List (Request R)) (t : Stepped R)
        → Steps (awaits k).instant asked t
        → Goes (suc k) asked t
    Goes-at k asked t = Kept-at (suc k) (awaits k).instant (t.requests ++ asked) t.stage (inl refl)

    locating-Asked :
        (k : ℕ) (i : Instant R) (asked : List (Request R)) (o : Option Outcome)
        → Kept k asked (locating o)
        → Asked i asked (locating o)
    locating-Asked k i asked none h = h
    locating-Asked k i asked (some o) h = tt

    step-Goes :
        (k : ℕ) (a : Answer R) (active : Option ℕ) (s : Stage R) (asked : List (Request R))
        → Kept k asked s
        → Goes (suc k) asked (step p v a (awaits k).instant active s)
    unfolding step
    step-Goes k (server_ready b) active waiting_for_server asked h =
        let i = (awaits k).instant in
        Kept-at (suc k) i asked (on_server v b i) (inl refl) (server-Asked i asked b h)
    step-Goes k (transform tf) active localizing asked h =
        let i = (awaits k).instant in
        Goes-at k asked (on_localization p v active tf i) (localization-Asked i asked active tf h)
    step-Goes k (goal_handle b handle) active sending asked h =
        let i = (awaits k).instant in
        Goes-at k asked (on_goal_handle v active b handle i)
          (handle-Asked i asked active b handle h)
    step-Goes k slept active (polling handle) asked h =
        let i = (awaits k).instant in
        Goes-at k asked (poll v handle i.result i) (poll-Asked i asked handle i.result h)
    step-Goes k cancel_returned active (cancelling o) asked h = tt
    step-Goes k (waited (ok u)) active (draining o) asked h = tt
    step-Goes k (waited (raised e)) active (draining o) asked h = tt
    step-Goes k (transform tf) active (locating o) asked h =
        let i = (awaits k).instant in
        Kept-at (suc k) i asked (on_pose p v o (resolve_final_pose tf i) i) (inl refl)
          (on_pose-Asked i asked o (resolve_final_pose tf i) (locating-Asked k i asked o h))
    step-Goes k (failed e) active waiting_for_server asked h = tt
    step-Goes k (failed e) active localizing asked h = tt
    step-Goes k (failed e) active sending asked h = tt
    step-Goes k (failed e) active (locating o) asked h = tt
    step-Goes k _ active s asked h = Kept-later k asked s h

module _ {R : Type 0} ⦃n : Number R⦄ (p : Plugin) (command : SemanticCommand R)
    (target : NavigateTarget R) where
  module _ (start : Instant R) (active : Option ℕ) (awaits : ℕ → Await R) where
    sail-Kept :
        (k : ℕ)
        → Kept p
            (voyage command target start)
            start
            active
            awaits
            k
            (sail p command target start active awaits k).asked
            (sail p command target start active awaits k).stage
    unfolding sail begin ros2_mcp_server.Navigation.Goal.fail
    sail-Kept zero = begins (contains start.known_frames (frame (voyage command target start)))
      where
        begins :
            (b : Bool)
            → Kept p (voyage command target start) start active awaits zero [] (
                if b then waiting_for_server else unknown_frame (voyage command target start) start)
        begins true = refl
        begins false = (start, refl, gave_up refl)
    sail-Kept (suc k) =
        step-Goes p (voyage command target start) start active awaits k (awaits k).answer
          (awaits k).active_goal_handle (sail p command target start active awaits k).stage
          (sail p command target start active awaits k).asked (sail-Kept k)

    -- A navigation that has ended either failed, or it succeeded: then the answer to the goal was, at
    -- the start or at the instant of one of the awaits so far, that it succeeded, and the goal of the command is all
    -- that was ever asked of the action server, its cancellation not among it.
    pub sail-Honest :
        (k : ℕ) {result : ToolResult R}
        → (sail p command target start active awaits k).stage ≡ ended result
        → (i : Instant R) × Occurs p (voyage command target start) start active awaits k i
          × Honest p
              (voyage command target start)
              i
              (sail p command target start active awaits k).asked
              result
    sail-Honest k e =
        subst
          (Kept p (voyage command target start) start active awaits k
            (sail p command target start active awaits k).asked)
          e (sail-Kept k)
