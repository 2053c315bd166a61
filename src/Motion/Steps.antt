-- ===== src/Motion/Steps.antt =====
-- The body of the control loop of adapters/motion/cmd_vel_plugin.py as a step relation: one rule for
-- each way through it, in the order of its tests.
use ros2_mcp_server.Base.{
  ℕ, ◌≡◌, refl, ap, Bool, true, false, if◌then◌else◌, ◌||◌, Option, none, some, arith,
}
use ros2_mcp_server.Number.{Number, nat, abs}
use ros2_mcp_server.Geometry.Angle.{angular_difference}
use ros2_mcp_server.Contracts.Core.{ErrorCode, Pose2D}
use ros2_mcp_server.Contracts.Results.{StopReason}
use ros2_mcp_server.Motion.{Plugin, Instant, current_pose, obstacle_ahead}
use ros2_mcp_server.Motion.Plan.{
  Phase, turning, driving, Plan, Drive, moving, spinning, Ticked, quiet, send, turned, remaining_at,
  sector_of, moved_to,
}
use ros2_mcp_server.Motion.Control.{
  angular_command, linear_command, failed_at, succeeded_at, turn, turn_by, drive_by, avoid,
  drive_on, blocked, act, steer, tick,
}

module _ {R : Type 0} where
  -- The pose that the code goes on with: none where it is missing or not fresh.
  abbrev pub fresh_pose : Option (Pose2D R) × Bool → Option (Pose2D R)
  fresh_pose (some pose, true) = some pose
  fresh_pose _ = none

module _ {R : Type 0} ⦃n : Number R⦄ where
  abbrev pub heading_error : ℕ → Plan R → Pose2D R → Option R
  heading_error turns plan pose = angular_difference turns plan.aim.heading_target pose.yaw

module _ {R V M : Type 0} ⦃n : Number R⦄ where
  open n use {le}

  -- The token is not cancelled, the deadline is not reached, and the odometry is fresh.
  pub record Running (p : Plugin R M) (plan : Plan R) (i : Instant R V M) (pose : Pose2D R)
      : Type 0 where
    pub kept : i.is_cancelled ≡ false
    pub in_time : i.deadline_exceeded ≡ false
    pub before : le plan.deadline i.monotonic ≡ false
    pub fresh : current_pose p i ≡ (some pose, true)

  abbrev pub ahead : Plugin R M → Plan R → Instant R V M → Option R
  ahead p plan i =
      obstacle_ahead p i (sector_of plan.aim.drive_sign) plan.constraints.obstacle_stop_distance_m

  pub data Step (turns : ℕ) (p : Plugin R M) (plan : Plan R) (i : Instant R V M) (d : Drive R)
      : Ticked R → Type 0 where
    cancel :
        i.is_cancelled ≡ true
        → Step turns p plan i d
            (failed_at plan i d ErrorCode.cancelled "move cancelled" StopReason.cancelled)
    time_out :
        i.is_cancelled ≡ false
        → i.deadline_exceeded || le plan.deadline i.monotonic ≡ true
        → Step turns p plan i d (
            failed_at plan i d ErrorCode.action_timeout "move timed out before reaching target"
              StopReason.timeout)
    lose_odometry :
        i.is_cancelled ≡ false
        → fresh_pose (current_pose p i) ≡ none
        → Step turns p plan i d (
            failed_at plan i d ErrorCode.sensor_stale "odometry became stale during motion"
              StopReason.safety_stop)
    block :
        {pose : Pose2D R} {range : R}
        → Running p plan i pose
        → d.phase ≡ driving
        → ahead p plan i ≡ some range
        → Step turns p plan i d
            (blocked plan i (moved_to pose d) pose (sector_of plan.aim.drive_sign) range)
    face :
        {pose : Pose2D R} {error : R}
        → Running p plan i pose
        → d.phase ≡ turning
        → heading_error turns plan pose ≡ some error
        → le (abs error) p.angle_tolerance_rad ≡ true
        → plan.aim.is_rotation ≡ true
        → Step turns p plan i d (succeeded_at plan i (moved_to pose d) pose)
    set_out :
        {pose : Pose2D R} {error : R}
        → Running p plan i pose
        → d.phase ≡ turning
        → heading_error turns plan pose ≡ some error
        → le (abs error) p.angle_tolerance_rad ≡ true
        → plan.aim.is_rotation ≡ false
        → Step turns p plan i d (quiet (moving plan (turned pose (moved_to pose d))))
    rotate :
        {pose : Pose2D R} {error : R}
        → Running p plan i pose
        → d.phase ≡ turning
        → heading_error turns plan pose ≡ some error
        → le (abs error) p.angle_tolerance_rad ≡ false
        → Step turns p plan i d
            (send plan (moved_to pose d) (nat 0) (angular_command p plan (moved_to pose d) error))
    arrive :
        {pose : Pose2D R}
        → Running p plan i pose
        → d.phase ≡ driving
        → ahead p plan i ≡ none
        → le (remaining_at plan (moved_to pose d) pose) p.position_tolerance_m ≡ true
        → Step turns p plan i d (succeeded_at plan i (moved_to pose d) pose)
    advance :
        {pose : Pose2D R} {error : R}
        → Running p plan i pose
        → d.phase ≡ driving
        → ahead p plan i ≡ none
        → le (remaining_at plan (moved_to pose d) pose) p.position_tolerance_m ≡ false
        → heading_error turns plan pose ≡ some error
        → Step turns p plan i d (
            send plan
              (moved_to pose d)
              (linear_command p plan (moved_to pose d) (remaining_at plan (moved_to pose d) pose))
              (angular_command p plan (moved_to pose d) error))
    spin :
        {pose : Pose2D R}
        → Running p plan i pose
        → heading_error turns plan pose ≡ none
        → Step turns p plan i d (quiet spinning)

  module _ (turns : ℕ) (p : Plugin R M) (plan : Plan R) (i : Instant R V M) (d : Drive R) where
    abbrev Rule : Ticked R → Type 0
    Rule t = Step turns p plan i d t

    if-Rule :
        (b : Bool) {t u : Ticked R}
        → (b ≡ true → Rule t)
        → (b ≡ false → Rule u)
        → Rule (if b then t else u)
    if-Rule true f g = f refl
    if-Rule false f g = g refl

    turn_by-Step :
        (pose : Pose2D R) (o : Option R)
        → Running p plan i pose
        → d.phase ≡ turning
        → heading_error turns plan pose ≡ o
        → Rule (turn_by turns p plan i pose (moved_to pose d) o)
    unfolding turn
    turn_by-Step pose none run phase e = spin run e
    turn_by-Step pose (some error) run phase e =
        if-Rule (le (abs error) p.angle_tolerance_rad)
          (λ k. if-Rule plan.aim.is_rotation (face run phase e k) (set_out run phase e k))
          (rotate run phase e)

    drive_by-Step :
        (pose : Pose2D R) (o : Option R)
        → Running p plan i pose
        → d.phase ≡ driving
        → ahead p plan i ≡ none
        → le (remaining_at plan (moved_to pose d) pose) p.position_tolerance_m ≡ false
        → heading_error turns plan pose ≡ o
        → Rule (drive_by p plan (moved_to pose d) (remaining_at plan (moved_to pose d) pose) o)
    drive_by-Step pose none run phase a k e = spin run e
    drive_by-Step pose (some error) run phase a k e = advance run phase a k e

    avoid-Step :
        (pose : Pose2D R) (o : Option R)
        → Running p plan i pose
        → d.phase ≡ driving
        → ahead p plan i ≡ o
        → Rule (avoid turns p plan i pose (moved_to pose d) (sector_of plan.aim.drive_sign) o)
    unfolding drive_on
    avoid-Step pose (some range) run phase a = block run phase a
    avoid-Step pose none run phase a =
        if-Rule (le (remaining_at plan (moved_to pose d) pose) p.position_tolerance_m)
          (arrive run phase a)
          (λ k. drive_by-Step pose (heading_error turns plan pose) run phase a k refl)

    act-Step :
        (pose : Pose2D R) (f : Phase)
        → Running p plan i pose
        → d.phase ≡ f
        → Rule (act turns p plan i pose (moved_to pose d) f)
    act-Step pose turning run h = turn_by-Step pose (heading_error turns plan pose) run h refl
    act-Step pose driving run h = avoid-Step pose (ahead p plan i) run h refl

    steer-Step :
        (q : Option (Pose2D R) × Bool)
        → current_pose p i ≡ q
        → i.is_cancelled ≡ false
        → i.deadline_exceeded || le plan.deadline i.monotonic ≡ false
        → Rule (steer turns p plan i d q)
    steer-Step (some pose, true) e c t =
        act-Step pose d.phase
          (record { kept = c; in_time = ground arith; before = ground arith; fresh = e }) refl
    steer-Step (some pose, false) e c t = lose_odometry c (ap fresh_pose e)
    steer-Step (none, true) e c t = lose_odometry c (ap fresh_pose e)
    steer-Step (none, false) e c t = lose_odometry c (ap fresh_pose e)

    -- Whatever it reads, an iteration of the loop follows one of the rules.
    pub tick-Step : Rule (tick turns p plan i d)
    unfolding tick
    tick-Step = if-Rule i.is_cancelled cancel (λ c.
        if-Rule (i.deadline_exceeded || le plan.deadline i.monotonic) (time_out c)
          (steer-Step (current_pose p i) refl c))
