-- ===== src/Motion/Invariant.antt =====
-- Induction over the instants of `move` in adapters/motion/cmd_vel_plugin.py: what holds of the plan
-- and the variables of the loop, and of each velocity that is published.
use ros2_mcp_server.Base.{ℕ, zero, suc, ◌≡◌, refl, ok, some, true, List, [], ◌∷◌, All}
use ros2_mcp_server.Number.{Number}
use ros2_mcp_server.Contracts.Core.{Pose2D, MoveTarget, move_target, SemanticCommand}
use ros2_mcp_server.Motion.{Twist, Plugin, Instant, current_pose}
use ros2_mcp_server.Motion.Plan.{
  Plan, Drive, Next, moving, ended, raising, spinning, Ticked, aim_at,
}
use ros2_mcp_server.Motion.Control.{begin, tick}
use ros2_mcp_server.Motion.Run.{Sent, log, proceed, move}
use ros2_mcp_server.Motion.Steps.{
  Step, cancel, time_out, lose_odometry, block, face, set_out, rotate, arrive, advance, spin,
  tick-Step,
}
use ros2_mcp_server.Motion.Planned.{Start, begin-Start}

module _ {R : Type 0} where
  -- What holds of a loop that goes on.
  abbrev pub Holds : (Plan R → Drive R → Type 0) → Next R → Type 0
  Holds Q (moving plan d) = Q plan d
  Holds Q _ = Unit

  log-All :
      (P : Sent R → Type 0) (k : ℕ) (ws : List (Twist R)) (sent : List (Sent R))
      → All (λ w. P (record { instant_index = k; twist = w })) ws
      → All P sent
      → All P (log k ws sent)
  log-All P k [] sent h s = s
  log-All P k (w ∷ ws) sent h s =
      log-All P k ws (record { instant_index = k; twist = w } ∷ sent) h.1 (h.0, s)

module _ {R V M : Type 0} ⦃n : Number R⦄ where
  open n use {plus}

  module _ (turns : ℕ) (p : Plugin R M) (instants : ℕ → Instant R V M)
      (command : SemanticCommand R) where
    -- What holds before the loop and after each iteration.
    module _ (Q : Plan R → Drive R → Type 0)
        (base : Holds Q (begin turns p command (instants 0)).next)
        (kept : (k : ℕ) (plan : Plan R) (d : Drive R)
          → Q plan d
          → Holds Q (tick turns p plan (instants (suc k)) d).next) where
      proceed-Holds :
          (k : ℕ) (next : Next R)
          → Holds Q next
          → Holds Q (proceed turns p (instants (suc k)) next).next
      proceed-Holds k (moving plan d) h = kept k plan d h
      proceed-Holds k (ended r) h = tt
      proceed-Holds k (raising e) h = tt
      proceed-Holds k spinning h = tt

      pub move-Holds : (k : ℕ) → Holds Q (move turns p instants command k).next
      unfolding move
      move-Holds zero = base
      move-Holds (suc k) = proceed-Holds k (move turns p instants command k).next (move-Holds k)

      module _ (P : Sent R → Type 0)
          (first : All
            (λ w. P (record { instant_index = 0; twist = w }))
            (begin turns p command (instants 0)).twists)
          (later : (k : ℕ) (plan : Plan R) (d : Drive R)
            → Q plan d
            → All
                (λ w. P (record { instant_index = suc k; twist = w }))
                (tick turns p plan (instants (suc k)) d).twists) where
        proceed-All :
            (k : ℕ) (next : Next R)
            → Holds Q next
            → All
                (λ w. P (record { instant_index = suc k; twist = w }))
                (proceed turns p (instants (suc k)) next).twists
        proceed-All k (moving plan d) h = later k plan d h
        proceed-All k (ended r) h = tt
        proceed-All k (raising e) h = tt
        proceed-All k spinning h = tt

        pub move-All : (k : ℕ) → All P (move turns p instants command k).published
        unfolding move
        move-All zero = log-All P 0 (begin turns p command (instants 0)).twists [] first tt
        move-All (suc k) =
            log-All P (suc k)
              (proceed turns p (instants (suc k)) (move turns p instants command k).next).twists
              (move turns p instants command k).published
              (proceed-All k (move turns p instants command k).next (move-Holds k)) (move-All k)

  -- A plan made of the command at the first instant.
  pub record Planned (turns : ℕ) (p : Plugin R M) (command : SemanticCommand R) (i : Instant R V M)
      (plan : Plan R) : Type 0 where
    pub of_command : plan.command ≡ command
    pub limits : command.safety_constraints ≡ some plan.constraints
    pub deadline : plan.deadline ≡ plus i.monotonic command.timeout_s
    pub target : MoveTarget R
    pub has_target : command.target ≡ move_target target
    pub pose : Pose2D R
    pub fresh : current_pose p i ≡ (some pose, true)
    pub aimed : aim_at turns pose target ≡ ok (some plan.aim)

  module _ (turns : ℕ) (p : Plugin R M) where
    pub Start-Planned :
        (command : SemanticCommand R) (i : Instant R V M) {t : Ticked R}
        → Start turns p command i t
        → Holds (λ plan d. Planned turns p command i plan) t.next
    Start-Planned command i (Start.refuse e) = tt
    Start-Planned command i (Start.stay h) = tt
    Start-Planned command i Start.spin = tt
    Start-Planned command i (Start.set_out {t} {constraints} {pose} {a} ht hc hp ha) = record {
      of_command = refl;
      limits = hc;
      deadline = refl;
      target = t;
      has_target = ht;
      pose = pose;
      fresh = hp;
      aimed = ha;
    }

    Step-keeps :
        {plan : Plan R} {i : Instant R V M} {d : Drive R} {t : Ticked R} (P : Plan R → Type 0)
        → Step turns p plan i d t
        → P plan
        → Holds (λ q _. P q) t.next
    Step-keeps P (cancel h) q = tt
    Step-keeps P (time_out h k) q = tt
    Step-keeps P (lose_odometry h k) q = tt
    Step-keeps P (block run f a) q = tt
    Step-keeps P (face run f e k r) q = tt
    Step-keeps P (set_out run f e k r) q = q
    Step-keeps P (rotate run f e k) q = q
    Step-keeps P (arrive run f a k) q = tt
    Step-keeps P (advance run f a k e) q = q
    Step-keeps P (spin run e) q = tt

    pub begin-Planned :
        (command : SemanticCommand R) (i : Instant R V M)
        → Holds (λ plan d. Planned turns p command i plan) (begin turns p command i).next
    begin-Planned command i = Start-Planned command i (begin-Start turns p command i)

    pub tick-keeps :
        (P : Plan R → Type 0) (plan : Plan R) (i : Instant R V M) (d : Drive R)
        → P plan
        → Holds (λ q _. P q) (tick turns p plan i d).next
    tick-keeps P plan i d = Step-keeps P (tick-Step turns p plan i d)

    -- As long as the loop runs, its plan is the command's.
    pub move-Planned :
        (instants : ℕ → Instant R V M) (command : SemanticCommand R) (k : ℕ)
        → Holds
            (λ plan d. Planned turns p command (instants 0) plan)
            (move turns p instants command k).next
    move-Planned instants command =
        move-Holds turns p instants command (λ plan d. Planned turns p command (instants 0) plan)
          (begin-Planned command (instants 0))
          (λ k plan d h.
            tick-keeps (Planned turns p command (instants 0)) plan (instants (suc k)) d h)
