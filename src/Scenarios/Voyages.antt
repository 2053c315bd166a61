-- ===== src/Scenarios/Voyages.antt =====
-- A navigation that succeeds, and one whose token is cancelled once its goal is under way.
use ros2_mcp_server.Base.{
  ℕ, zero, suc, ◌≡◌, refl, Bool, true, false, if◌then◌else◌, ltb, [], ◌∷◌, none, some, Option,
  Except, ok, raised, inl,
}
use ros2_mcp_server.Number.Fixed.{ℤ, fixed}
use ros2_mcp_server.Contracts.Core.{Confidence}
use ros2_mcp_server.Contracts.Results.{ToolResult}
use ros2_mcp_server.Contracts.Discovery.{CapabilityEntry}
use ros2_mcp_server.Navigation.{Plugin, Instant, TransformResult, resolve_final_pose}
use ros2_mcp_server.Navigation.Goal.{
  Stage, waiting_for_server, localizing, sending, polling, cancelling, draining, locating, raising,
  Answer, server_ready, transform, goal_handle, slept, cancel_returned, waited, failed, ended,
  voyage, arrived, begin, step, on_server, on_localization, on_goal_handle, by_status,
}
use ros2_mcp_server.Navigation.Voyages.{Await, sail}
use ros2_mcp_server.Navigation.Life.{History, life, Final, sail-History}
use ros2_mcp_server.Navigation.Arrival.{Honest, Occurs, sail-Honest}
use ros2_mcp_server.Navigation.Progress.{sail-Final, IsAwaited}
use ros2_mcp_server.Scenarios.Data.{m, navigate_command, goal}

abbrev nav2 : Plugin
nav2 = record { base_frame = "base_link"; status_succeeded = 4; status_canceled = 5 }

abbrev localization : CapabilityEntry ℤ
localization = record {
  capability_id = "localization";
  confidence = Confidence.confirmed;
  backend_id = none;
  resolved_topics = [];
  limits = [];
}

abbrev at : Bool → Option (Except ℕ) → Instant ℤ
at is_cancelled result = record {
  is_cancelled = is_cancelled;
  deadline_exceeded = false;
  monotonic = m 1;
  now = m 1;
  known_frames = "map" ∷ "base_link" ∷ [];
  entries = localization ∷ [];
  feedback = none;
  result = result;
}

abbrev found : TransformResult ℤ
found = record { ok = true; x = some (m 2); y = some (m 1); yaw = some (m 0); error = none }

-- The answers in order; then what the last stage waits for.
abbrev answers : ℕ → Answer ℤ
answers zero = server_ready true
answers (suc zero) = transform found
answers (suc (suc zero)) = goal_handle true 7
answers (suc (suc (suc zero))) = slept
answers _ = transform found

abbrev awaits : ℕ → Await ℤ
awaits k = record {
  answer = answers k;
  instant = at false (if ltb 2 k then some (ok 4) else none);
  active_goal_handle = none;
}

abbrev success : ToolResult ℤ
success =
    arrived (voyage (navigate_command "c1") goal (at false none)) (at false none)
      (some (record { x = m 2; y = m 1; yaw = m 0; frame = "map"; stamp = m 1 }))

arrives :
    (sail nav2 (navigate_command "c1") goal (at false none) none awaits 5).stage ≡ ended success
unfolding sail begin step on_server on_localization on_goal_handle by_status resolve_final_pose
    arrived
arrives = refl

sail-Honest_example :
    (i : Instant ℤ) × Occurs nav2
      (voyage (navigate_command "c1") goal (at false none))
      (at false none)
      none
      awaits
      5
      i
    × Honest nav2
        (voyage (navigate_command "c1") goal (at false none))
        i
        (sail nav2 (navigate_command "c1") goal (at false none) none awaits 5).asked
        success
sail-Honest_example =
    sail-Honest nav2 (navigate_command "c1") goal (at false none) none awaits 5 arrives

sail-History_example :
    History ℤ
      (sail nav2 (navigate_command "c1") goal (at false none) none awaits 5).asked
      (life (sail nav2 (navigate_command "c1") goal (at false none) none awaits 5).stage)
sail-History_example = sail-History nav2 (navigate_command "c1") goal (at false none) none awaits 5

abbrev answers_cancelled : ℕ → Answer ℤ
answers_cancelled zero = server_ready true
answers_cancelled (suc zero) = transform found
answers_cancelled (suc (suc zero)) = goal_handle true 7
answers_cancelled (suc (suc (suc zero))) = cancel_returned
answers_cancelled (suc (suc (suc (suc zero)))) = waited (ok tt)
answers_cancelled _ = transform found

abbrev recalled : ℕ → Await ℤ
recalled k = record {
  answer = answers_cancelled k;
  instant = at true none;
  active_goal_handle = none;
}

abbrev recalling : ℕ → Stage ℤ
recalling k = (sail nav2 (navigate_command "c1") goal (at true none) none recalled k).stage

abbrev IsEnded : Stage ℤ → Type 0
IsEnded (ended result) = Unit
IsEnded _ = ⊥

step-IsEnded :
    (a : Answer ℤ) (s : Stage ℤ)
    → IsEnded s
    → IsEnded
        (step nav2
          (voyage (navigate_command "c1") goal (at true none))
          a
          (at true none)
          none
          s).stage
unfolding step
step-IsEnded a waiting_for_server h = absurd h
step-IsEnded a localizing h = absurd h
step-IsEnded a sending h = absurd h
step-IsEnded a (polling handle) h = absurd h
step-IsEnded a (cancelling o) h = absurd h
step-IsEnded a (draining o) h = absurd h
step-IsEnded a (locating o) h = absurd h
step-IsEnded a (raising e) h = absurd h
step-IsEnded (server_ready b) (ended result) h = tt
step-IsEnded (transform tf) (ended result) h = tt
step-IsEnded (goal_handle b k) (ended result) h = tt
step-IsEnded (failed e) (ended result) h = tt
step-IsEnded slept (ended result) h = tt
step-IsEnded cancel_returned (ended result) h = tt
step-IsEnded (waited (ok u)) (ended result) h = tt
step-IsEnded (waited (raised e)) (ended result) h = tt

recalling-IsEnded : (j : ℕ) → IsEnded (recalling (suc (suc (suc (suc (suc (suc j)))))))
unfolding sail begin step on_server on_localization on_goal_handle resolve_final_pose
recalling-IsEnded zero = tt
recalling-IsEnded (suc j) = step-IsEnded (transform found) _ (recalling-IsEnded j)

IsAwaited-any : (s : Stage ℤ) (a : Answer ℤ) → IsEnded s → IsAwaited s a
IsAwaited-any waiting_for_server a h = absurd h
IsAwaited-any localizing a h = absurd h
IsAwaited-any sending a h = absurd h
IsAwaited-any (polling handle) a h = absurd h
IsAwaited-any (cancelling o) a h = absurd h
IsAwaited-any (draining o) a h = absurd h
IsAwaited-any (locating o) a h = absurd h
IsAwaited-any (raising e) a h = absurd h
IsAwaited-any (ended result) a h = tt

recalling-IsAwaited : (j : ℕ) → IsAwaited (recalling j) (answers_cancelled j)
unfolding sail begin step on_server on_localization on_goal_handle
recalling-IsAwaited zero = tt
recalling-IsAwaited (suc zero) = tt
recalling-IsAwaited (suc (suc zero)) = tt
recalling-IsAwaited (suc (suc (suc zero))) = tt
recalling-IsAwaited (suc (suc (suc (suc zero)))) = tt
recalling-IsAwaited (suc (suc (suc (suc (suc zero))))) = tt
recalling-IsAwaited (suc (suc (suc (suc (suc (suc j)))))) = IsAwaited-any _ _ (recalling-IsEnded j)

sail-Final_example : Final (recalling 7)
sail-Final_example =
    sail-Final nav2 (navigate_command "c1") goal (at true none) none recalled 0 recalling-IsAwaited
      (λ m. inl refl)
