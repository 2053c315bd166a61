-- ===== src/Safety/Safe.antt =====
-- What a safe move and a safe goal are: a description of what safety/policy_engine.py decides, in terms
-- of the configuration, the command and the robot's pose alone.
use ros2_mcp_server.Base.{String, ◌≡◌, ◌≢◌, ◌⊎◌, true, false, Option, none, some}
use ros2_mcp_server.Number.{Number, nat}
use ros2_mcp_server.Contracts.Core.{Pose2D, MoveTarget, NavigateTarget}
use ros2_mcp_server.Contracts.Config.{SafetyConfig, GeofenceConfig, policy_based, always_human}

module _ {R : Type 0} where
  abbrev pub IsTurn : MoveTarget R → Type 0
  IsTurn t = (t.direction ≡ "rotate_left") ⊎ (t.direction ≡ "rotate_right")

  -- The move covers the distance `d`: a turn covers none.
  abbrev pub Covers : MoveTarget R → R → Type 0
  Covers t d = (t.distance_m ≡ some d) × (¬ IsTurn t)

module _ {R : Type 0} ⦃n : Number R⦄ where
  open n use {lt, le, plus, minus, times, neg, cos, sin, hypot}

  -- A direction, and the forward and the lateral part of its unit step.
  pub data Heading (direction : String) (forward lateral : R) : Type 0 where
    ahead :
        direction ≡ "forward"
        → forward ≡ nat 1
        → lateral ≡ nat 0
        → Heading direction forward lateral
    back :
        direction ≡ "backward"
        → forward ≡ neg (nat 1)
        → lateral ≡ nat 0
        → Heading direction forward lateral
    to_left :
        direction ≡ "left" → forward ≡ nat 0 → lateral ≡ nat 1 → Heading direction forward lateral
    to_right :
        direction ≡ "right"
        → forward ≡ nat 0
        → lateral ≡ neg (nat 1)
        → Heading direction forward lateral

  -- The position `xy` at the end of a move that is made as it was asked for.
  pub data EndsAt (t : MoveTarget R) (p : Pose2D R) (xy : R × R) : Type 0 where
    turns : IsTurn t → xy ≡ (p.x, p.y) → EndsAt t p xy
    stays : t.distance_m ≡ none → xy ≡ (p.x, p.y) → EndsAt t p xy
    moves :
        (d forward lateral : R)
        → t.distance_m ≡ some d
        → Heading t.direction forward lateral
        → xy ≡ (
          plus p.x
              (minus (times (times forward d) (cos p.yaw)) (times (times lateral d) (sin p.yaw))),
          plus p.y
              (plus (times (times forward d) (sin p.yaw)) (times (times lateral d) (cos p.yaw))),
        )
        → EndsAt t p xy

  pub record InFence (fence : GeofenceConfig R) (x y : R) : Type 0 where
    pub not_west : le fence.min_x x ≡ true
    pub not_east : le x fence.max_x ≡ true
    pub not_south : le fence.min_y y ≡ true
    pub not_north : le y fence.max_y ≡ true

  -- The position is inside the geofence, where one is enabled.
  abbrev pub Inside : SafetyConfig R → R × R → Type 0
  Inside safety (x, y) = safety.geofence.enabled ≡ true → InFence safety.geofence x y

  -- No distance that is covered is above the limit.
  abbrev pub NotAbove : R → (R → Type 0) → Type 0
  NotAbove limit Covered = (d : R) → Covered d → lt limit d ≡ false

  -- No human has to approve a motion that covers such distances.
  pub record IsUnattended (safety : SafetyConfig R) (Covered : R → Type 0) : Type 0 where
    pub not_always : safety.approval_policy ≢ always_human
    pub below :
        safety.approval_policy ≡ policy_based
        → NotAbove safety.human_approval.required_above_distance_m Covered

  -- A move that may be made: not too far, its end inside the geofence if the robot's pose is known, and
  -- not in need of approval.
  pub record MoveIsSafe (safety : SafetyConfig R) (t : MoveTarget R) (pose : Option (Pose2D R))
      : Type 0 where
    pub near : NotAbove safety.max_move_distance_m (Covers t)
    pub inside : (p : Pose2D R) (xy : R × R) → pose ≡ some p → EndsAt t p xy → Inside safety xy
    pub unattended : IsUnattended safety (Covers t)

  -- As the crow flies.
  abbrev pub Away : Pose2D R → NavigateTarget R → R → Type 0
  Away p t d = d ≡ hypot (minus t.x p.x) (minus t.y p.y)

  -- A goal that may be sent: the robot's pose is known, and the goal is near enough, inside the
  -- geofence and not in need of approval.
  pub record GoalIsSafe (safety : SafetyConfig R) (t : NavigateTarget R) (pose : Option (Pose2D R))
      : Type 0 where
    pub at : Pose2D R
    pub known : pose ≡ some at
    pub near : NotAbove safety.max_navigation_distance_m (Away at t)
    pub inside : Inside safety (t.x, t.y)
    pub unattended : IsUnattended safety (Away at t)
