-- ===== src/Motion/Guarded.antt =====
-- The safety of the control loop of adapters/motion/cmd_vel_plugin.py: what holds whenever it
-- publishes a velocity other than zero.
use ros2_mcp_server.Base.{
  ℕ, suc, ◌≡◌, refl, ap, ◌∙◌, subst, true, false, none, some, ◌⊎◌, inl, inr, All,
}
use ros2_mcp_server.Number.{Number, IsRounded, nat}
use ros2_mcp_server.Contracts.Core.{
  Pose2D, MoveTarget, move_target, SafetyConstraints, SemanticCommand,
}
use ros2_mcp_server.Motion.{Twist, Plugin, Instant, current_pose, obstacle_ahead}
use ros2_mcp_server.Motion.Aims.{travel_sector, aim_at-sign, sector_of-sign}
use ros2_mcp_server.Motion.Plan.{Plan, Drive, Ticked, zero_twist, sector_of}
use ros2_mcp_server.Motion.Run.{Sent, move}
use ros2_mcp_server.Motion.Steps.{
  Step, Running, ahead, cancel, time_out, lose_odometry, block, face, set_out, rotate, arrive,
  advance, spin, tick-Step,
}
use ros2_mcp_server.Motion.Planned.{Start, begin-Start}
use ros2_mcp_server.Motion.Invariant.{Planned, begin-Planned, tick-keeps, move-All}

module _ {R V M : Type 0} ⦃n : Number R⦄ where
  open n use {le, plus}

  -- No scan of the instant shows an obstacle within the stop distance in the sector of travel.
  pub record PathIsClear (p : Plugin R M) (i : Instant R V M) (command : SemanticCommand R)
      : Type 0 where
    pub target : MoveTarget R
    pub has_target : command.target ≡ move_target target
    pub constraints : SafetyConstraints R
    pub has_constraints : command.safety_constraints ≡ some constraints
    pub clear :
        obstacle_ahead p i (travel_sector target.direction) constraints.obstacle_stop_distance_m
        ≡ none

  -- What an instant must show for `twist` to be published, for a move that began at `start`.
  pub record IsPermitted (p : Plugin R M) (start i : Instant R V M) (command : SemanticCommand R)
      (twist : Twist R) : Type 0 where
    pub kept : i.is_cancelled ≡ false
    pub in_time : i.deadline_exceeded ≡ false
    pub before : le (plus start.monotonic command.timeout_s) i.monotonic ≡ false
    pub odometry : (pose : Pose2D R) × (current_pose p i ≡ (some pose, true))
    pub path : (twist.linear_x ≡ nat 0) ⊎ PathIsClear p i command

  abbrev pub IsGuarded : Plugin R M → (ℕ → Instant R V M) → SemanticCommand R → Sent R → Type 0
  IsGuarded p instants command s =
      (s.twist ≡ zero_twist) ⊎ IsPermitted p (instants 0) (instants s.instant_index) command s.twist

module _ {R V M : Type 0} ⦃n : Number R⦄ (laws : IsRounded n) where
  open n use {le}

  module _ (turns : ℕ) (p : Plugin R M) (instants : ℕ → Instant R V M)
      (command : SemanticCommand R) where
    ahead-PathIsClear :
        {i : Instant R V M} {plan : Plan R}
        → Planned turns p command (instants 0) plan
        → ahead p plan i ≡ none
        → PathIsClear p i command
    ahead-PathIsClear {i} {plan} q a = record {
      target = q.target;
      has_target = q.has_target;
      constraints = plan.constraints;
      has_constraints = q.limits;
      clear =
          subst (λ s. obstacle_ahead p i s plan.constraints.obstacle_stop_distance_m ≡ none)
            (ap sector_of (aim_at-sign turns q.pose q.target q.aimed)
              ∙ sector_of-sign laws q.target.direction)
            a;
    }

    permit :
        {i : Instant R V M} {plan : Plan R} {pose : Pose2D R} (twist : Twist R)
        → Planned turns p command (instants 0) plan
        → Running p plan i pose
        → (twist.linear_x ≡ nat 0) ⊎ PathIsClear p i command
        → IsPermitted p (instants 0) i command twist
    permit {i} {plan} {pose} twist q run path = record {
      kept = run.kept;
      in_time = run.in_time;
      before = subst (λ t. le t i.monotonic ≡ false) q.deadline run.before;
      odometry = (pose, run.fresh);
      path = path;
    }

    abbrev Guards : ℕ → Ticked R → Type 0
    Guards k t =
        All (λ w. IsGuarded p instants command (record { instant_index = k; twist = w })) t.twists

    Step-Guards :
        (k : ℕ) {plan : Plan R} {d : Drive R} {t : Ticked R}
        → Planned turns p command (instants 0) plan
        → Step turns p plan (instants k) d t
        → Guards k t
    Step-Guards k q (cancel h) = (inl refl, tt)
    Step-Guards k q (time_out h l) = (inl refl, tt)
    Step-Guards k q (lose_odometry h l) = (inl refl, tt)
    Step-Guards k q (block run f a) = (inl refl, tt)
    Step-Guards k q (face run f e l r) = (inl refl, tt)
    Step-Guards k q (set_out run f e l r) = tt
    Step-Guards k q (rotate run f e l) = (inr (permit _ q run (inl refl)), tt)
    Step-Guards k q (arrive run f a l) = (inl refl, tt)
    Step-Guards k q (advance run f a l e) = (inr (permit _ q run (inr (ahead-PathIsClear q a))), tt)
    Step-Guards k q (spin run e) = tt

    Start-Guards : {t : Ticked R} → Start turns p command (instants 0) t → Guards 0 t
    Start-Guards (Start.refuse e) = tt
    Start-Guards (Start.stay h) = (inl refl, tt)
    Start-Guards Start.spin = tt
    Start-Guards (Start.set_out ht hc hp ha) = tt

    -- Each velocity that a move has published by any instant is zero, or else at its instant the
    -- token was not cancelled, the deadline not reached, the odometry fresh, and where it drives, no
    -- obstacle within the stop distance was reported for the sector of travel. The numbers round.
    pub move-AllGuarded :
        (k : ℕ) → All (IsGuarded p instants command) (move turns p instants command k).published
    move-AllGuarded =
        move-All turns p instants command (λ plan d. Planned turns p command (instants 0) plan)
          (begin-Planned turns p command (instants 0))
          (λ k plan d h.
            tick-keeps turns p (Planned turns p command (instants 0)) plan (instants (suc k)) d h)
          (IsGuarded p instants command) (Start-Guards (begin-Start turns p command (instants 0)))
          (λ k plan d h. Step-Guards (suc k) h (tick-Step turns p plan (instants (suc k)) d))
