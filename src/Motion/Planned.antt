-- ===== src/Motion/Planned.antt =====
-- What adapters/motion/cmd_vel_plugin.py has fixed when its loop runs: the plan is that of the
-- command, and a loop that runs stays with the plan it was set off with.
use ros2_mcp_server.Base.{
  ℕ, ◌≡◌, refl, ap, Bool, true, false, Option, none, some, Except, ok, raised, Exception,
  assertion_error,
}
use ros2_mcp_server.Number.{Number}
use ros2_mcp_server.Contracts.Core.{
  Pose2D, SemanticCommand, SafetyConstraints, MoveTarget, Target, move_target, navigate_target,
  no_target,
}
use ros2_mcp_server.Motion.{Plugin, Instant, current_pose}
use ros2_mcp_server.Motion.Plan.{
  Aim, Plan, moving, raising, spinning, Ticked, quiet, halt, aim_at, first_drive,
}
use ros2_mcp_server.Motion.Control.{begin, begin_at, begin_move, start, no_odometry, set_off}
use ros2_mcp_server.Motion.Steps.{fresh_pose}

module _ {R V M : Type 0} ⦃n : Number R⦄ where
  open n use {plus, neg}

  abbrev pub plan_of : SemanticCommand R → SafetyConstraints R → Instant R V M → Aim R → Plan R
  plan_of command constraints i a = record {
    command = command;
    constraints = constraints;
    start_monotonic = i.monotonic;
    deadline = plus i.monotonic command.timeout_s;
    aim = a;
  }

  -- The ways through `move` before its loop.
  pub data Start (turns : ℕ) (p : Plugin R M) (command : SemanticCommand R) (i : Instant R V M)
      : Ticked R → Type 0 where
    refuse : (e : Exception) → Start turns p command i (quiet (raising e))
    stay :
        fresh_pose (current_pose p i) ≡ none
        → Start turns p command i (halt (no_odometry command i))
    spin : Start turns p command i (quiet spinning)
    set_out :
        {t : MoveTarget R} {constraints : SafetyConstraints R} {pose : Pose2D R} {a : Aim R}
        → command.target ≡ move_target t
        → command.safety_constraints ≡ some constraints
        → current_pose p i ≡ (some pose, true)
        → aim_at turns pose t ≡ ok (some a)
        → Start turns p command i
            (quiet (moving (plan_of command constraints i a) (first_drive a.start_phase pose)))

  module _ (turns : ℕ) (p : Plugin R M) (command : SemanticCommand R) (i : Instant R V M) where
    set_off-Start :
        {t : MoveTarget R} {constraints : SafetyConstraints R} {pose : Pose2D R}
        (m : Except (Option (Aim R)))
        → command.target ≡ move_target t
        → command.safety_constraints ≡ some constraints
        → current_pose p i ≡ (some pose, true)
        → aim_at turns pose t ≡ m
        → Start turns p command i (quiet (set_off command constraints i pose m))
    set_off-Start (raised e) ht hc hp ha = refuse e
    set_off-Start (ok none) ht hc hp ha = spin
    set_off-Start (ok (some a)) ht hc hp ha = set_out ht hc hp ha

    start-Start :
        {t : MoveTarget R} {constraints : SafetyConstraints R} (q : Option (Pose2D R) × Bool)
        → command.target ≡ move_target t
        → command.safety_constraints ≡ some constraints
        → current_pose p i ≡ q
        → Start turns p command i (start turns command t constraints i q)
    start-Start {t} (some pose, true) ht hc e = set_off-Start (aim_at turns pose t) ht hc e refl
    start-Start (some pose, false) ht hc e = stay (ap fresh_pose e)
    start-Start (none, true) ht hc e = stay (ap fresh_pose e)
    start-Start (none, false) ht hc e = stay (ap fresh_pose e)

    begin_move-Start :
        {t : MoveTarget R} (c : Option (SafetyConstraints R))
        → command.target ≡ move_target t
        → command.safety_constraints ≡ c
        → Start turns p command i (begin_move turns p command i t c)
    begin_move-Start none ht hc = refuse assertion_error
    begin_move-Start (some constraints) ht hc = start-Start (current_pose p i) ht hc refl

    begin_at-Start :
        (t : Target R) → command.target ≡ t → Start turns p command i (begin_at turns p command i t)
    begin_at-Start (move_target t) ht = begin_move-Start command.safety_constraints ht refl
    begin_at-Start (navigate_target t) ht = refuse assertion_error
    begin_at-Start no_target ht = refuse assertion_error

    -- Whatever it reads, `move` comes to its loop by one of the rules.
    pub begin-Start : Start turns p command i (begin turns p command i)
    unfolding begin
    begin-Start = begin_at-Start command.target refl
