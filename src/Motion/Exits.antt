-- ===== src/Motion/Exits.antt =====
-- What the result of `move` in adapters/motion/cmd_vel_plugin.py says of the instant at which it ended.
use ros2_mcp_server.Base.{
  ℕ, zero, suc, ◌≡◌, refl, ap, ◌∙◌, subst, true, ◌||◌, none, some, inl, inr, ok,
}
use ros2_mcp_server.Number.{Number, IsRounded, abs}
use ros2_mcp_server.Geometry.{euclidean_distance}
use ros2_mcp_server.Geometry.Angle.{angular_difference}
use ros2_mcp_server.Contracts.Core.{
  ErrorCode, ToolError, Pose2D, MoveTarget, move_target, SafetyConstraints, SemanticCommand,
}
use ros2_mcp_server.Contracts.Results.{Status, ToolResult}
use ros2_mcp_server.Motion.{Plugin, Instant, current_pose, obstacle_ahead}
use ros2_mcp_server.Motion.Aims.{travel_sector, Drives, aim_at-Drives, aim_at-sign, sector_of-sign}
use ros2_mcp_server.Motion.Plan.{
  Phase, turning, driving, Plan, Aim, Drive, Next, moving, ended, raising, spinning, Ticked,
  sector_of, aim_at, moved_to, remaining_at,
}
use ros2_mcp_server.Motion.Control.{begin, tick}
use ros2_mcp_server.Motion.Run.{proceed, move}
use ros2_mcp_server.Motion.Steps.{
  Step, Running, ahead, heading_error, fresh_pose, cancel, time_out, lose_odometry, block, face,
  set_out, rotate, arrive, advance, spin, tick-Step,
}
use ros2_mcp_server.Motion.Planned.{Start, begin-Start}
use ros2_mcp_server.Motion.Invariant.{Planned}

module _ {R V M : Type 0} ⦃n : Number R⦄ where
  open n use {le, plus, minus}

  -- An obstacle within the stop distance in the sector of travel.
  pub record IsBlocked (p : Plugin R M) (i : Instant R V M) (command : SemanticCommand R)
      : Type 0 where
    pub target : MoveTarget R
    pub has_target : command.target ≡ move_target target
    pub constraints : SafetyConstraints R
    pub has_constraints : command.safety_constraints ≡ some constraints
    pub range : R
    pub obstacle :
        obstacle_ahead p i (travel_sector target.direction) constraints.obstacle_stop_distance_m
        ≡ some range

  -- What an error of the code says of the instant `i`, for a move that began at `start`.
  abbrev pub Cause :
      Plugin R M → Instant R V M → Instant R V M → SemanticCommand R → ErrorCode → Type 0
  Cause p start i command ErrorCode.cancelled = i.is_cancelled ≡ true
  Cause p start i command ErrorCode.action_timeout =
      i.deadline_exceeded || le (plus start.monotonic command.timeout_s) i.monotonic ≡ true
  Cause p start i command ErrorCode.sensor_stale = fresh_pose (current_pose p i) ≡ none
  Cause p start i command ErrorCode.safety_rejected = IsBlocked p i command
  Cause p start i command _ = ⊥

  -- The robot has reached the target of its aim, a move that began at `start`: a rotation faces its
  -- heading, and a move that drives at once is its distance away from where it began, both within
  -- the tolerance.
  pub record HasArrived (turns : ℕ) (p : Plugin R M) (start i : Instant R V M)
      (command : SemanticCommand R) : Type 0 where
    pub target : MoveTarget R
    pub has_target : command.target ≡ move_target target
    pub from : Pose2D R
    pub starts : current_pose p start ≡ (some from, true)
    pub aim : Aim R
    pub aims : aim_at turns from target ≡ ok (some aim)
    pub at : Pose2D R
    pub fresh : current_pose p i ≡ (some at, true)
    pub faces :
        aim.is_rotation ≡ true
        → (error : R) × (angular_difference turns aim.heading_target at.yaw ≡ some error)
          × (le (abs error) p.angle_tolerance_rad ≡ true)
    pub drove :
        aim.start_phase ≡ driving
        → le
            (minus aim.distance_target_m (euclidean_distance from.x from.y at.x at.y))
            p.position_tolerance_m
          ≡ true

  -- How a result accounts for the instant at which the move ended.
  pub data Account (turns : ℕ) (p : Plugin R M) (start i : Instant R V M)
      (command : SemanticCommand R) (result : ToolResult R) : Type 0 where
    failing :
        {error : ToolError R}
        → result.status ≡ Status.failed
        → result.error ≡ some error
        → Cause p start i command error.code
        → Account turns p start i command result
    arriving :
        result.status ≡ Status.succeeded
        → result.error ≡ none
        → HasArrived turns p start i command
        → Account turns p start i command result

module _ {R V M : Type 0} ⦃n : Number R⦄ (laws : IsRounded n) (turns : ℕ) (p : Plugin R M) where
  open n use {le, minus}

  module _ (start : Instant R V M) (command : SemanticCommand R) where
    -- What the loop keeps, so that it knows where it has arrived.
    record OnWay (plan : Plan R) (d : Drive R) : Type 0 where
      planned : Planned turns p command start plan
      turns_only : plan.aim.is_rotation ≡ true → d.phase ≡ turning
      drives_only :
          plan.aim.start_phase ≡ driving → (d.phase ≡ driving) × (d.phase_start_pose ≡ planned.pose)

    abbrev Accounts : Instant R V M → Next R → Type 0
    Accounts i (ended result) = Account turns p start i command result
    Accounts i (moving plan d) = OnWay plan d
    Accounts i _ = Unit

    ahead-IsBlocked :
        {plan : Plan R} {i : Instant R V M} {range : R}
        → Planned turns p command start plan
        → ahead p plan i ≡ some range
        → IsBlocked p i command
    ahead-IsBlocked {plan} {i} {range} q a = record {
      target = q.target;
      has_target = q.has_target;
      constraints = plan.constraints;
      has_constraints = q.limits;
      range = range;
      obstacle =
          subst (λ s. obstacle_ahead p i s plan.constraints.obstacle_stop_distance_m ≡ some range)
            (ap sector_of (aim_at-sign turns q.pose q.target q.aimed)
              ∙ sector_of-sign laws q.target.direction)
            a;
    }

    module _ {plan : Plan R} {i : Instant R V M} {d : Drive R} where
      face-HasArrived :
          {pose : Pose2D R} {error : R}
          → OnWay plan d
          → Running p plan i pose
          → d.phase ≡ turning
          → heading_error turns plan pose ≡ some error
          → le (abs error) p.angle_tolerance_rad ≡ true
          → HasArrived turns p start i command
      face-HasArrived {pose} {error} w run f e l = record {
        target = w.planned.target;
        has_target = w.planned.has_target;
        from = w.planned.pose;
        starts = w.planned.fresh;
        aim = plan.aim;
        aims = w.planned.aimed;
        at = pose;
        fresh = run.fresh;
        faces = λ _. (error, e, l);
        drove = λ h. absurd (let driven = (w.drives_only h).0 in cc);
      }

      arrive-HasArrived :
          {pose : Pose2D R}
          → OnWay plan d
          → Running p plan i pose
          → d.phase ≡ driving
          → le (remaining_at plan (moved_to pose d) pose) p.position_tolerance_m ≡ true
          → HasArrived turns p start i command
      arrive-HasArrived {pose} w run f l = record {
        target = w.planned.target;
        has_target = w.planned.has_target;
        from = w.planned.pose;
        starts = w.planned.fresh;
        aim = plan.aim;
        aims = w.planned.aimed;
        at = pose;
        fresh = run.fresh;
        faces = λ h. absurd (let turned = w.turns_only h in cc);
        drove = λ h.
            subst
              (λ (q : Pose2D R).
                le (minus plan.aim.distance_target_m (euclidean_distance q.x q.y pose.x pose.y))
                  p.position_tolerance_m
                ≡ true)
              (w.drives_only h).1 l;
      }

      Step-Accounts : {t : Ticked R} → OnWay plan d → Step turns p plan i d t → Accounts i t.next
      unfolding ros2_mcp_server.Motion.Plan.fail ros2_mcp_server.Motion.Plan.reached
      Step-Accounts w (cancel h) = failing refl refl h
      Step-Accounts w (time_out h l) =
          failing refl refl
            (subst (λ t. i.deadline_exceeded || le t i.monotonic ≡ true) w.planned.deadline l)
      Step-Accounts w (lose_odometry h l) = failing refl refl l
      Step-Accounts w (block run f a) = failing refl refl (ahead-IsBlocked w.planned a)
      Step-Accounts w (face run f e l r) = arriving refl refl (face-HasArrived w run f e l)
      Step-Accounts w (arrive run f a l) = arriving refl refl (arrive-HasArrived w run f l)
      Step-Accounts w (spin run e) = tt
      Step-Accounts w (set_out run f e l r) = record {
        planned = w.planned;
        turns_only = λ h. absurd (cc);
        drives_only = λ h. absurd (let driven = (w.drives_only h).0 in cc);
      }
      Step-Accounts w (rotate run f e l) = record {
        planned = w.planned;
        turns_only = w.turns_only;
        drives_only = w.drives_only;
      }
      Step-Accounts w (advance run f a l e) = record {
        planned = w.planned;
        turns_only = w.turns_only;
        drives_only = w.drives_only;
      }

    rotation-turns : (a : Aim R) → Drives a → a.is_rotation ≡ true → a.start_phase ≡ turning
    rotation-turns a (inl r) h = r.1
    rotation-turns a (inr u) h = absurd (let drives = u.0 in cc)

    start-Accounts : {t : Ticked R} → Start turns p command start t → Accounts start t.next
    unfolding ros2_mcp_server.Motion.Plan.fail
    start-Accounts (Start.refuse e) = tt
    start-Accounts (Start.stay x) = failing refl refl x
    start-Accounts Start.spin = tt
    start-Accounts (Start.set_out {t} {constraints} {pose} {a} ht hd hp ha) = record {
      planned = record {
        of_command = refl;
        limits = hd;
        deadline = refl;
        target = t;
        has_target = ht;
        pose = pose;
        fresh = hp;
        aimed = ha;
      };
      turns_only = rotation-turns a (aim_at-Drives turns pose t ha);
      drives_only = λ h. (h, refl);
    }

  module _ (instants : ℕ → Instant R V M) (command : SemanticCommand R) where
    -- An ended move accounts for some instant.
    abbrev Accounted : Next R → Type 0
    Accounted (ended result) = (j : ℕ) × Account turns p (instants 0) (instants j) command result
    Accounted (moving plan d) = OnWay (instants 0) command plan d
    Accounted _ = Unit

    at_instant :
        (j : ℕ) (next : Next R) → Accounts (instants 0) command (instants j) next → Accounted next
    at_instant j (moving plan d) a = a
    at_instant j (ended result) a = (j, a)
    at_instant j (raising e) a = tt
    at_instant j spinning a = tt

    proceed-Accounted :
        (j : ℕ) (next : Next R)
        → Accounted next
        → Accounted (proceed turns p (instants j) next).next
    proceed-Accounted j (moving plan d) a =
        at_instant j (tick turns p plan (instants j) d).next
          (Step-Accounts (instants 0) command a (tick-Step turns p plan (instants j) d))
    proceed-Accounted j (ended result) a = a
    proceed-Accounted j (raising e) a = tt
    proceed-Accounted j spinning a = tt

    move-Accounted : (k : ℕ) → Accounted (move turns p instants command k).next
    unfolding move
    move-Accounted zero =
        at_instant 0 (begin turns p command (instants 0)).next
          (start-Accounts (instants 0) command (begin-Start turns p command (instants 0)))
    move-Accounted (suc k) =
        proceed-Accounted (suc k) (move turns p instants command k).next (move-Accounted k)

    -- For a move that has ended there is an instant that its result accounts for. Either the result
    -- failed, and its error is CANCELLED with the token cancelled, ACTION_TIMEOUT with the deadline
    -- reached, SENSOR_STALE without fresh odometry, or SAFETY_REJECTED with an obstacle within the
    -- stop distance in the sector of travel; or it succeeded without an error on fresh odometry, a
    -- rotation with its heading within the tolerance, and a move forward or backward with no more
    -- than the tolerance left of its distance from where it began. The numbers round.
    pub move-Account :
        (k : ℕ) {result : ToolResult R}
        → (move turns p instants command k).next ≡ ended result
        → (j : ℕ) × Account turns p (instants 0) (instants j) command result
    move-Account k e = subst Accounted e (move-Accounted k)
