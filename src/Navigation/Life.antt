-- ===== src/Navigation/Life.antt =====
-- The life of a Nav2 goal as the abstract protocol that adapters/navigation/nav2_plugin.py follows: a
-- goal is sent at most once, and its cancellation asked at most once and only after that.
use ros2_mcp_server.Base.{
  ◌==ℕ◌, ℕ, zero, suc, Bool, true, false, if◌then◌else◌, List, [], ◌∷◌, ◌++◌, Option, none, some,
  Except, ok, raised, contains,
}
use ros2_mcp_server.Number.{Number}
use ros2_mcp_server.Contracts.Discovery.{CapabilityEntry}
use ros2_mcp_server.Capabilities.Registry.{find_entry}
use ros2_mcp_server.Contracts.Core.{Pose2D, SemanticCommand, NavigateTarget}
use ros2_mcp_server.Navigation.{Plugin, Instant, GoalMessage, resolve_final_pose}
use ros2_mcp_server.Navigation.Goal.{
  voyage, wait, unknown_frame, on_entry, Outcome, cancelled, timed_out, Stage, waiting_for_server,
  localizing, sending, polling, cancelling, draining, locating, ended, raising, Request, send_goal,
  cancel_goal, Answer, server_ready, transform, goal_handle, slept, cancel_returned, waited, failed,
  Voyage, Stepped, frame, begin, is_late, poll, on_server, on_localization, on_goal_handle,
  by_status, by_result, on_pose, step,
}
use ros2_mcp_server.Navigation.Voyages.{Await, sail}

pub data Life : Type 0 where
  unsent submitted : Life
  under_way : ℕ → Life
  recalled over : Life

-- The transitions of the protocol, with what each asks of the server.
pub data Transition (R : Type 0) : Life → List (Request R) → Life → Type 0 where
  stay : {l : Life} → Transition R l [] l
  refuse : Transition R unsent [] over
  submit : (g : GoalMessage R) → Transition R unsent (send_goal g ∷ []) submitted
  accept : (handle : ℕ) → Transition R submitted [] (under_way handle)
  reject : Transition R submitted [] over
  accept_late : (handle : ℕ) → Transition R submitted (cancel_goal handle ∷ []) recalled
  recall : (handle : ℕ) → Transition R (under_way handle) (cancel_goal handle ∷ []) recalled
  settle : {handle : ℕ} → Transition R (under_way handle) [] over
  give_up : Transition R recalled [] over

-- The histories of the protocol.
pub data History (R : Type 0) : List (Request R) → Life → Type 0 where
  launch : History R [] unsent
  turn_away : History R [] over
  follow :
      {asked requests : List (Request R)} {l m : Life}
      → History R asked l
      → Transition R l requests m
      → History R (requests ++ asked) m

module _ {R : Type 0} where
  abbrev pub life : Stage R → Life
  life waiting_for_server = unsent
  life localizing = unsent
  life sending = submitted
  life (polling handle) = under_way handle
  life (cancelling o) = recalled
  life (draining o) = recalled
  life (locating o) = over
  life (ended result) = over
  life (raising e) = over

  -- A stage at which `navigate` has returned or raised.
  abbrev pub Final : Stage R → Type 0
  Final (ended result) = Unit
  Final (raising e) = Unit
  Final _ = ⊥

  Final-over : (s : Stage R) → Final s → Transition R over [] (life s)
  Final-over (ended result) f = stay
  Final-over (raising e) f = stay
  Final-over waiting_for_server f = absurd f
  Final-over localizing f = absurd f
  Final-over sending f = absurd f
  Final-over (polling handle) f = absurd f
  Final-over (cancelling o) f = absurd f
  Final-over (draining o) f = absurd f
  Final-over (locating o) f = absurd f

  abbrev pub To : Life → Stepped R → Type 0
  To l t = Transition R l t.requests (life t.stage)

  if-To : (l : Life) (b : Bool) (t u : Stepped R) → To l t → To l u → To l (if b then t else u)
  if-To l true t u x y = x
  if-To l false t u x y = y

  if-Final : (b : Bool) (s t : Stage R) → Final s → Final t → Final (if b then s else t)
  if-Final true s t f g = f
  if-Final false s t f g = g

module _ {R : Type 0} ⦃n : Number R⦄ (p : Plugin) (v : Voyage R) where
  by_status-Final :
      (pose : Option (Pose2D R)) (status : ℕ) (i : Instant R) → Final (by_status p v pose status i)
  unfolding by_status
  by_status-Final pose status i =
      if-Final (status ==ℕ p.status_succeeded) _ _ tt
        (if-Final (status ==ℕ p.status_canceled) _ _ tt tt)

  pub on_pose-Final :
      (o : Option Outcome) (e : Except (Option (Pose2D R))) (i : Instant R)
      → Final (on_pose p v o e i)
  on_pose-Final o (raised e) i = tt
  on_pose-Final (some cancelled) (ok pose) i = tt
  on_pose-Final (some timed_out) (ok pose) i = tt
  on_pose-Final none (ok pose) i = by_result-Final pose i.result i
    where
      by_result-Final :
          (pose : Option (Pose2D R)) (r : Option (Except ℕ)) (i : Instant R)
          → Final (by_result p v pose r i)
      by_result-Final pose none i = tt
      by_result-Final pose (some (raised e)) i = tt
      by_result-Final pose (some (ok status)) i = by_status-Final pose status i

  on_server-To :
      (active : Option ℕ) (b : Bool) (i : Instant R) → To unsent (wait active (on_server v b i))
  unfolding on_server
  on_server-To active false i = refuse
  on_server-To active true i = entry (find_entry "localization" i.entries)
    where
      entry : (o : Option (CapabilityEntry R)) → To unsent (wait active (on_entry v i o))
      entry none = refuse
      entry (some e) = stay

  poll-under_way :
      (handle : ℕ) (r : Option (Except ℕ)) (i : Instant R)
      → To (under_way handle) (poll v handle r i)
  poll-under_way handle (some r) i = settle
  poll-under_way handle none i =
      if-To (under_way handle) i.is_cancelled _ _ (recall handle)
        (if-To (under_way handle) (is_late v i) _ _ (recall handle) stay)

  poll-submitted :
      (handle : ℕ) (r : Option (Except ℕ)) (i : Instant R) → To submitted (poll v handle r i)
  poll-submitted handle (some r) i = reject
  poll-submitted handle none i =
      if-To submitted i.is_cancelled _ _ (accept_late handle)
        (if-To submitted (is_late v i) _ _ (accept_late handle) (accept handle))

  -- Whatever the answer, the stretch after an await makes a transition of the protocol, asking of the
  -- action server what that transition asks.
  pub step-Transition :
      (a : Answer R) (i : Instant R) (active : Option ℕ) (s : Stage R)
      → Transition R (life s) (step p v a i active s).requests (life (step p v a i active s).stage)
  unfolding step on_localization on_goal_handle
  step-Transition (server_ready b) i active waiting_for_server = on_server-To active b i
  step-Transition (transform tf) i active localizing = if-To unsent tf.ok _ _ (submit _) refuse
  step-Transition (goal_handle b handle) i active sending =
      if-To submitted b _ _ (poll-submitted handle i.result i) reject
  step-Transition slept i active (polling handle) = poll-under_way handle i.result i
  step-Transition cancel_returned i active (cancelling o) = stay
  step-Transition (waited (ok u)) i active (draining o) = give_up
  step-Transition (waited (raised e)) i active (draining o) = give_up
  step-Transition (transform tf) i active (locating o) =
      Final-over (on_pose p v o (resolve_final_pose tf i) i)
        (on_pose-Final o (resolve_final_pose tf i) i)
  step-Transition (failed e) i active waiting_for_server = refuse
  step-Transition (failed e) i active localizing = refuse
  step-Transition (failed e) i active sending = reject
  step-Transition (failed e) i active (locating o) = stay
  step-Transition _ i active _ = stay

module _ {R : Type 0} ⦃n : Number R⦄ (p : Plugin) (command : SemanticCommand R)
    (target : NavigateTarget R) where
  module _ (start : Instant R) (active : Option ℕ) (awaits : ℕ → Await R) where
    -- Every history of `navigate` is one of the protocol: what it has asked of the action server is
    -- what the protocol asks on the way to the life that its stage stands for.
    pub sail-History :
        (k : ℕ)
        → History R
            (sail p command target start active awaits k).asked
            (life (sail p command target start active awaits k).stage)
    unfolding sail begin
    sail-History zero = begins (contains start.known_frames (frame (voyage command target start)))
      where
        begins :
            (b : Bool)
            → History R [] (
                life (
                  if b
                  then waiting_for_server
                  else unknown_frame (voyage command target start) start))
        begins true = launch
        begins false = turn_away
    sail-History (suc k) = follow (sail-History k) (
        step-Transition p (voyage command target start) (awaits k).answer (awaits k).instant
          (awaits k).active_goal_handle (sail p command target start active awaits k).stage)
