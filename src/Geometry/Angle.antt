-- ===== src/Geometry/Angle.antt =====
-- src/ros_mcp/geometry.py: `normalize_angle` and `angular_difference`. The two loops run on fuel, the
-- number of turns: on floats they need not end, since a large angle less a turn can be that angle.
use ros2_mcp_server.Base.{ℕ, zero, suc, Option, none, some, if◌then◌else◌}
use ros2_mcp_server.Number.{Number, nat}

module _ {R : Type 0} ⦃n : Number R⦄ where
  open n use {lt, le, plus, minus, times, neg, pi}

  unfoldable pub subtract_turns : ℕ → R → Option R
  subtract_turns zero a = none
  subtract_turns (suc k) a =
      let rest = subtract_turns k (minus a (times (nat 2) pi)) in if lt pi a then rest else some a

  unfoldable pub add_turns : ℕ → R → Option R
  add_turns zero a = none
  add_turns (suc k) a =
      let rest = add_turns k (plus a (times (nat 2) pi)) in if le a (neg pi) then rest else some a

  -- `none` where the fuel is not enough.
  unfoldable pub normalize_angle : ℕ → R → Option R
  normalize_angle fuel a = elim (subtract_turns fuel a) [ none ↦ none | some b ↦ add_turns fuel b ]

  unfoldable pub angular_difference : ℕ → R → R → Option R
  angular_difference fuel target_rad current_rad =
      normalize_angle fuel (minus target_rad current_rad)
