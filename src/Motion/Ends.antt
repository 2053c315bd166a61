-- ===== src/Motion/Ends.antt =====
-- The end of `move` of adapters/motion/cmd_vel_plugin.py: a cancelled token and an expired deadline do
-- end it.
use ros2_mcp_server.Base.{ℕ, zero, suc, ◌≡◌, ◌≢◌, refl, sym, subst, true, ◌⊎◌, inl, inr}
use ros2_mcp_server.Number.{Number}
use ros2_mcp_server.Contracts.Core.{Pose2D, SemanticCommand}
use ros2_mcp_server.Contracts.Results.{ToolResult}
use ros2_mcp_server.Motion.{Plugin, Instant}
use ros2_mcp_server.Motion.Plan.{Plan, Drive, Next, moving, ended, raising, spinning, Ticked}
use ros2_mcp_server.Motion.Run.{proceed, move}
use ros2_mcp_server.Motion.Steps.{
  Step, Running, cancel, time_out, lose_odometry, block, face, set_out, rotate, arrive, advance,
  spin, tick-Step,
}
use ros2_mcp_server.Motion.Invariant.{Planned, Holds, move-Planned}
use ros2_mcp_server.Motion.Ready.{NotRaising, IsReady, begin-NotRaising}

module _ {R : Type 0} where
  abbrev pub HasEnded : Next R → Type 0
  HasEnded next = (result : ToolResult R) × (next ≡ ended result)

module _ {R V M : Type 0} ⦃n : Number R⦄ where
  open n use {le, plus}

  -- The token is cancelled or its deadline exceeded, or the clock has reached `deadline`.
  abbrev pub IsOver : R → Instant R V M → Type 0
  IsOver deadline i =
      (i.is_cancelled ≡ true) ⊎ (i.deadline_exceeded ≡ true) ⊎ (le deadline i.monotonic ≡ true)

  module _ (turns : ℕ) (p : Plugin R M) where
    Step-NotRaising :
        {plan : Plan R} {i : Instant R V M} {d : Drive R} {t : Ticked R}
        → Step turns p plan i d t
        → NotRaising t.next
    Step-NotRaising (cancel h) = tt
    Step-NotRaising (time_out h l) = tt
    Step-NotRaising (lose_odometry h l) = tt
    Step-NotRaising (block run f a) = tt
    Step-NotRaising (face run f e l r) = tt
    Step-NotRaising (set_out run f e l r) = tt
    Step-NotRaising (rotate run f e l) = tt
    Step-NotRaising (arrive run f a l) = tt
    Step-NotRaising (advance run f a l e) = tt
    Step-NotRaising (spin run e) = tt

    proceed-NotRaising :
        (i : Instant R V M) (next : Next R)
        → NotRaising next
        → NotRaising (proceed turns p i next).next
    proceed-NotRaising i (moving plan d) h = Step-NotRaising (tick-Step turns p plan i d)
    proceed-NotRaising i (ended r) h = tt
    proceed-NotRaising i (raising e) h = absurd h
    proceed-NotRaising i spinning h = tt

    -- A loop that is over does not run on.
    over-not-Running :
        {plan : Plan R} {i : Instant R V M} {pose : Pose2D R}
        → IsOver plan.deadline i
        → Running p plan i pose
        → ⊥
    over-not-Running (inl c) run = let kept = run.kept in cc
    over-not-Running (inr (inl x)) run = let in_time = run.in_time in cc
    over-not-Running (inr (inr l)) run = let before = run.before in cc

    Step-HasEnded :
        {plan : Plan R} {i : Instant R V M} {d : Drive R} {t : Ticked R}
        → IsOver plan.deadline i
        → Step turns p plan i d t
        → HasEnded t.next
    Step-HasEnded o (cancel h) = (_, refl)
    Step-HasEnded o (time_out h l) = (_, refl)
    Step-HasEnded o (lose_odometry h l) = (_, refl)
    Step-HasEnded o (block run f a) = (_, refl)
    Step-HasEnded o (face run f k l r) = (_, refl)
    Step-HasEnded o (set_out run f k l r) = absurd (over-not-Running o run)
    Step-HasEnded o (rotate run f k l) = absurd (over-not-Running o run)
    Step-HasEnded o (arrive run f a l) = (_, refl)
    Step-HasEnded o (advance run f a l k) = absurd (over-not-Running o run)
    Step-HasEnded o (spin run k) = absurd (over-not-Running o run)

    module _ (instants : ℕ → Instant R V M) (command : SemanticCommand R) where
      move-NotRaising :
          IsReady command → (k : ℕ) → NotRaising (move turns p instants command k).next
      unfolding move
      move-NotRaising r zero = begin-NotRaising turns p command (instants 0) r
      move-NotRaising r (suc k) =
          proceed-NotRaising (instants (suc k)) (move turns p instants command k).next
            (move-NotRaising r k)

      proceed-HasEnded :
          (i : Instant R V M) (next : Next R)
          → NotRaising next
          → Holds (λ plan d. Planned turns p command (instants 0) plan) next
          → next ≢ spinning
          → IsOver (plus (instants 0).monotonic command.timeout_s) i
          → HasEnded (proceed turns p i next).next
      proceed-HasEnded i (moving plan d) h q s o =
          Step-HasEnded (subst (λ t. IsOver t i) (sym q.deadline) o) (tick-Step turns p plan i d)
      proceed-HasEnded i (ended r) h q s o = (r, refl)
      proceed-HasEnded i (raising e) h q s o = absurd h
      proceed-HasEnded i spinning h q s o = absurd (s refl)

      -- A move with a complete target and its constraints has returned a result by every instant at
      -- which its token is cancelled or its deadline reached, unless a loop of `normalize_angle`
      -- has outrun its fuel by then.
      pub move-HasEnded :
          (k : ℕ)
          → IsReady command
          → (move turns p instants command k).next ≢ spinning
          → IsOver (plus (instants 0).monotonic command.timeout_s) (instants (suc k))
          → HasEnded (move turns p instants command (suc k)).next
      unfolding move
      move-HasEnded k r s o =
          proceed-HasEnded (instants (suc k)) (move turns p instants command k).next
            (move-NotRaising r k) (move-Planned turns p instants command k) s o
