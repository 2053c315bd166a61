-- ===== src/Motion/Limited.antt =====
-- The velocities that the control loop of adapters/motion/cmd_vel_plugin.py publishes are within the
-- limits of the command.
use ros2_mcp_server.Base.{ℕ, suc, ◌≡◌, sym, subst, true, false, inl, inr, All, some, List}
use ros2_mcp_server.Number.{Number, IsRounded, nat}
use ros2_mcp_server.Contracts.Core.{SafetyConstraints, SemanticCommand, Pose2D}
use ros2_mcp_server.Motion.{Twist, Plugin, Instant, clamp}
use ros2_mcp_server.Motion.Aims.{IsUnit, Drives, aim_at-Drives}
use ros2_mcp_server.Motion.Plan.{driving, Aim, Next, Plan, Drive, Ticked, zero_twist, moved_to}
use ros2_mcp_server.Motion.Control.{angular_command, linear_command, tick}
use ros2_mcp_server.Motion.Run.{move}
use ros2_mcp_server.Motion.Steps.{
  Step, cancel, time_out, lose_odometry, block, face, set_out, rotate, arrive, advance, spin,
  tick-Step,
}
use ros2_mcp_server.Motion.Planned.{Start, begin-Start}
use ros2_mcp_server.Motion.Invariant.{Holds, move-All}
use ros2_mcp_server.Motion.Bounded.{
  IsBelow, zero-IsBelow, clamp-IsBelow, positive-IsBelow, negative-IsBelow, speed-Between,
  clamp_delta-Between,
}

module _ {R : Type 0} ⦃n : Number R⦄ where
  open n use {lt, times}

  -- The limits are above 0.
  pub record IsPositive (c : SafetyConstraints R) : Type 0 where
    pub linear : lt (nat 0) c.max_linear_mps ≡ true
    pub angular : lt (nat 0) c.max_angular_rps ≡ true

  -- Both velocities are within the limits.
  abbrev pub IsLimited : SafetyConstraints R → Twist R → Type 0
  IsLimited c w = IsBelow c.max_linear_mps w.linear_x × IsBelow c.max_angular_rps w.angular_z

  module _ (laws : IsRounded n) {M : Type 0} (p : Plugin R M) (c : SafetyConstraints R)
      (limits : IsPositive c) where
    -- What the loop keeps, so that the next velocities are limited.
    record Kept (plan : Plan R) (d : Drive R) : Type 0 where
      constraints : plan.constraints ≡ c
      drives : Drives plan.aim
      on_course : d.phase ≡ driving → IsUnit plan.aim.drive_sign
      linear : IsBelow c.max_linear_mps d.prev_linear_cmd
      angular : IsBelow c.max_angular_rps d.prev_angular_cmd

    angular-IsBelow :
        {plan : Plan R} {d : Drive R} (pose : Pose2D R) (error : R)
        → Kept plan d
        → IsBelow c.max_angular_rps (angular_command p plan (moved_to pose d) error)
    unfolding angular_command
    angular-IsBelow {plan} {d} pose error h =
        subst
          (λ x.
            IsBelow c.max_angular_rps
              (angular_command p (record plan { constraints = x }) (moved_to pose d) error))
          (sym h.constraints)
          (clamp_delta-Between laws _ _ _ _ _
            (clamp-IsBelow laws c.max_angular_rps limits.angular _) h.angular)

    times-IsBelow :
        (sign value : R)
        → IsUnit sign
        → IsBelow c.max_linear_mps (times sign (clamp value (nat 0) c.max_linear_mps))
    times-IsBelow sign value (inl e) =
        let speed = speed-Between laws c.max_linear_mps limits.linear value in
        rw (e, laws.times_one _ speed.0)
          (positive-IsBelow laws c.max_linear_mps limits.linear speed)
    times-IsBelow sign value (inr e) =
        let speed = speed-Between laws c.max_linear_mps limits.linear value in
        rw (e, laws.times_minus_one _ speed.0)
          (negative-IsBelow laws c.max_linear_mps limits.linear speed)

    linear-IsBelow :
        {plan : Plan R} {d : Drive R} (pose : Pose2D R) (remaining : R)
        → Kept plan d
        → d.phase ≡ driving
        → IsBelow c.max_linear_mps (linear_command p plan (moved_to pose d) remaining)
    unfolding linear_command
    linear-IsBelow {plan} {d} pose remaining h f =
        subst
          (λ x.
            IsBelow c.max_linear_mps
              (linear_command p (record plan { constraints = x }) (moved_to pose d) remaining))
          (sym h.constraints)
          (clamp_delta-Between laws _ _ _ _ _ (times-IsBelow plan.aim.drive_sign _ (h.on_course f))
            h.linear)

    zero-IsLimited : IsLimited c zero_twist
    zero-IsLimited = (
      zero-IsBelow laws c.max_linear_mps limits.linear,
      zero-IsBelow laws c.max_angular_rps limits.angular,
    )

    abbrev KeptNext : Next R → Type 0
    KeptNext next = Holds (Kept) next

    abbrev AllLimited : List (Twist R) → Type 0
    AllLimited ws = All (IsLimited c) ws

    face_out :
        {plan : Plan R} {d : Drive R}
        → Kept plan d
        → plan.aim.is_rotation ≡ false
        → IsUnit plan.aim.drive_sign
    face_out {plan} h e = elim h.drives [ inl r ↦ absurd (let turn = r.0 in cc) | inr u ↦ u.1 ]

    first-IsUnit : (a : Aim R) → Drives a → a.start_phase ≡ driving → IsUnit a.drive_sign
    first-IsUnit a (inl r) e = absurd (let turn = r.1 in cc)
    first-IsUnit a (inr u) e = u.1

module _ {R V M : Type 0} ⦃n : Number R⦄ (laws : IsRounded n) (turns : ℕ) (p : Plugin R M) where
  module _ (c : SafetyConstraints R) (limits : IsPositive c) where
    Step-Kept :
        {plan : Plan R} {i : Instant R V M} {d : Drive R} {t : Ticked R}
        → Kept laws p c limits plan d
        → Step turns p plan i d t
        → AllLimited laws p c limits t.twists × KeptNext laws p c limits t.next
    Step-Kept h (cancel x) = ((zero-IsLimited laws p c limits, tt), tt)
    Step-Kept h (time_out x l) = ((zero-IsLimited laws p c limits, tt), tt)
    Step-Kept h (lose_odometry x l) = ((zero-IsLimited laws p c limits, tt), tt)
    Step-Kept h (block run f a) = ((zero-IsLimited laws p c limits, tt), tt)
    Step-Kept h (face run f e l r) = ((zero-IsLimited laws p c limits, tt), tt)
    Step-Kept h (arrive run f a l) = ((zero-IsLimited laws p c limits, tt), tt)
    Step-Kept h (spin run e) = (tt, tt)
    Step-Kept h (set_out run f e l r) = (
      tt,
      record {
        constraints = h.constraints;
        drives = h.drives;
        on_course = λ _. face_out laws p c limits h r;
        linear = h.linear;
        angular = zero-IsBelow laws c.max_angular_rps limits.angular;
      },
    )
    Step-Kept h (rotate {pose} {error} run f e l) =
        let turned = angular-IsBelow laws p c limits pose error h in
        let still = zero-IsBelow laws c.max_linear_mps limits.linear in
        (
          ((still, turned), tt),
          record {
            constraints = h.constraints;
            drives = h.drives;
            on_course = h.on_course;
            linear = still;
            angular = turned;
          },
        )
    Step-Kept h (advance {pose} {error} run f a l e) =
        let turned = angular-IsBelow laws p c limits pose error h in
        let driven = linear-IsBelow laws p c limits pose _ h f in
        (
          ((driven, turned), tt),
          record {
            constraints = h.constraints;
            drives = h.drives;
            on_course = h.on_course;
            linear = driven;
            angular = turned;
          },
        )

    Start-Kept :
        {command : SemanticCommand R} {i : Instant R V M} {t : Ticked R}
        → command.safety_constraints ≡ some c
        → Start turns p command i t
        → AllLimited laws p c limits t.twists × KeptNext laws p c limits t.next
    Start-Kept hc (Start.refuse e) = (tt, tt)
    Start-Kept hc (Start.stay x) = ((zero-IsLimited laws p c limits, tt), tt)
    Start-Kept hc Start.spin = (tt, tt)
    Start-Kept hc (Start.set_out {t} {constraints} {pose} {a} ht hd hp ha) =
        let drives = aim_at-Drives turns pose t ha in
        (
          tt,
          record {
            constraints = cc;
            drives = drives;
            on_course = first-IsUnit laws p c limits a drives;
            linear = zero-IsBelow laws c.max_linear_mps limits.linear;
            angular = zero-IsBelow laws c.max_angular_rps limits.angular;
          },
        )

  -- On numbers that round, with limits above 0, every velocity that a move publishes is within the
  -- limits of its command: its speed along the robot's axis and its rate of turn are neither above
  -- the limit nor below its negative.
  pub move-AllLimited :
      (instants : ℕ → Instant R V M) (command : SemanticCommand R) (c : SafetyConstraints R)
      → command.safety_constraints ≡ some c
      → IsPositive c
      → (k : ℕ) → All (λ s. IsLimited c s.twist) (move turns p instants command k).published
  move-AllLimited instants command c hc limits =
      let begins = Start-Kept c limits hc (begin-Start turns p command (instants 0)) in
      let goes : (k : ℕ) (plan : Plan R) (d : Drive R)
          → Kept laws p c limits plan d
          → AllLimited laws p c limits (tick turns p plan (instants (suc k)) d).twists
            × KeptNext laws p c limits (tick turns p plan (instants (suc k)) d).next =
        λ k plan d h. Step-Kept c limits h (tick-Step turns p plan (instants (suc k)) d) in
      move-All turns p instants command (Kept laws p c limits) begins.1
        (λ k plan d h. (goes k plan d h).1) (λ s. IsLimited c s.twist) begins.0
        (λ k plan d h. (goes k plan d h).0)
