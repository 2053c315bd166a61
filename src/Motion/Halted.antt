-- ===== src/Motion/Halted.antt =====
-- How `move` of adapters/motion/cmd_vel_plugin.py ends: the robot is told to stand, and it does end
-- where the token, the deadline or the odometry says so.
use ros2_mcp_server.Base.{ℕ, zero, suc, ◌≡◌, refl, subst, List, [], ◌∷◌}
use ros2_mcp_server.Number.{Number}
use ros2_mcp_server.Contracts.Core.{SemanticCommand}
use ros2_mcp_server.Contracts.Results.{ToolResult}
use ros2_mcp_server.Motion.{Plugin, Instant}
use ros2_mcp_server.Motion.Plan.{
  Plan, Drive, Next, moving, ended, raising, spinning, Ticked, zero_twist,
}
use ros2_mcp_server.Motion.Run.{Sent, log, proceed, move}
use ros2_mcp_server.Motion.Steps.{
  Step, cancel, time_out, lose_odometry, block, face, set_out, rotate, arrive, advance, spin,
  tick-Step,
}
use ros2_mcp_server.Motion.Planned.{Start, begin-Start}

module _ {R : Type 0} ⦃n : Number R⦄ where
  -- The latest velocity is zero.
  abbrev pub Stands : List (Sent R) → Type 0
  Stands [] = ⊥
  Stands (s ∷ _) = s.twist ≡ zero_twist

  abbrev StandsAtEnd : Next R → List (Sent R) → Type 0
  StandsAtEnd (ended result) sent = Stands sent
  StandsAtEnd _ sent = Unit

module _ {R V M : Type 0} ⦃n : Number R⦄ where
  module _ (turns : ℕ) (p : Plugin R M) where
    Step-StandsAtEnd :
        {plan : Plan R} {i : Instant R V M} {d : Drive R} {t : Ticked R} (k : ℕ)
        (sent : List (Sent R))
        → Step turns p plan i d t
        → StandsAtEnd t.next (log k t.twists sent)
    Step-StandsAtEnd k sent (cancel h) = refl
    Step-StandsAtEnd k sent (time_out h l) = refl
    Step-StandsAtEnd k sent (lose_odometry h l) = refl
    Step-StandsAtEnd k sent (block run f a) = refl
    Step-StandsAtEnd k sent (face run f e l r) = refl
    Step-StandsAtEnd k sent (set_out run f e l r) = tt
    Step-StandsAtEnd k sent (rotate run f e l) = tt
    Step-StandsAtEnd k sent (arrive run f a l) = refl
    Step-StandsAtEnd k sent (advance run f a l e) = tt
    Step-StandsAtEnd k sent (spin run e) = tt

    Start-StandsAtEnd :
        {command : SemanticCommand R} {i : Instant R V M} {t : Ticked R}
        → Start turns p command i t
        → StandsAtEnd t.next (log 0 t.twists [])
    Start-StandsAtEnd (Start.refuse e) = tt
    Start-StandsAtEnd (Start.stay h) = refl
    Start-StandsAtEnd Start.spin = tt
    Start-StandsAtEnd (Start.set_out ht hc hp ha) = tt

    proceed-StandsAtEnd :
        (i : Instant R V M) (k : ℕ) (next : Next R) (sent : List (Sent R))
        → StandsAtEnd next sent
        → StandsAtEnd (proceed turns p i next).next (log k (proceed turns p i next).twists sent)
    proceed-StandsAtEnd i k (moving plan d) sent h =
        Step-StandsAtEnd k sent (tick-Step turns p plan i d)
    proceed-StandsAtEnd i k (ended r) sent h = h
    proceed-StandsAtEnd i k (raising e) sent h = tt
    proceed-StandsAtEnd i k spinning sent h = tt

    module _ (instants : ℕ → Instant R V M) (command : SemanticCommand R) where
      move-StandsAtEnd :
          (k : ℕ)
          → StandsAtEnd
              (move turns p instants command k).next
              (move turns p instants command k).published
      unfolding move
      move-StandsAtEnd zero = Start-StandsAtEnd (begin-Start turns p command (instants 0))
      move-StandsAtEnd (suc k) =
          proceed-StandsAtEnd (instants (suc k)) (suc k) (move turns p instants command k).next
            (move turns p instants command k).published (move-StandsAtEnd k)

      -- A move that has ended, by whatever exit, published the velocity zero last.
      pub move-Stands :
          (k : ℕ) {result : ToolResult R}
          → (move turns p instants command k).next ≡ ended result
          → Stands (move turns p instants command k).published
      move-Stands k e =
          subst (λ x. StandsAtEnd x (move turns p instants command k).published) e
            (move-StandsAtEnd k)
