-- ===== src/Motion/Bounded.antt =====
-- The bounds of the velocities that the control loop of adapters/motion/cmd_vel_plugin.py publishes:
-- its clamps, and the rate of change that it allows.
use ros2_mcp_server.Base.{◌≡◌, true, Bool-cases, inl, inr}
use ros2_mcp_server.Number.{Number, IsRounded, nat}
use ros2_mcp_server.Motion.{clamp, clamp_delta}

module _ {R : Type 0} ⦃n : Number R⦄ where
  open n use {lt, le, plus, minus, neg}

  abbrev pub Between : R → R → R → Type 0
  Between lo hi a = (le lo a ≡ true) × (le a hi ≡ true)

  -- -limit <= a <= limit
  abbrev pub IsBelow : R → R → Type 0
  IsBelow limit a = Between (neg limit) limit a

  module _ (laws : IsRounded n) where
    clamp-Between :
        (value lo hi : R)
        → le lo lo ≡ true
        → le lo hi ≡ true
        → le hi hi ≡ true
        → Between lo hi (clamp value lo hi)
    unfolding clamp
    clamp-Between value lo hi l m h = elim (Bool-cases (lt value hi)) [
      | inl e ↦ elim (Bool-cases (lt lo value)) [
        | inl k ↦ rw (e, k) (laws.lt_le lo value k, laws.lt_le value hi e)
        | inr k ↦ rw (e, k) (l, m)
      ]
      | inr e ↦ elim (Bool-cases (lt lo hi)) [ inl k ↦ rw (e, k) (m, h) | inr k ↦ rw (e, k) (l, m) ]
    ]

    pub clamp_delta-Between :
        (new prev d lo hi : R)
        → Between lo hi new
        → Between lo hi prev
        → Between lo hi (clamp_delta new prev d)
    unfolding clamp_delta
    clamp_delta-Between new prev d lo hi b c = elim (Bool-cases (le d (nat 0))) [
      | inl e ↦ rw e c
      | inr e ↦ elim (Bool-cases (lt d (minus new prev))) [
        | inl k ↦
            let between = laws.rise new prev d e k in
            rw (e, k) (laws.le_trans _ _ _ c.0 between.0, laws.le_trans _ _ _ between.1 b.1)
        | inr k ↦ elim (Bool-cases (lt (minus new prev) (neg d))) [
          | inl q ↦
              let between = laws.fall new prev d e q in
              rw (e, k, q) (laws.le_trans _ _ _ b.0 between.1, laws.le_trans _ _ _ between.0 c.1)
          | inr q ↦ rw (e, k, q) b
        ]
      ]
    ]

    -- A limit above 0.
    module _ (limit : R) (positive : lt (nat 0) limit ≡ true) where
      zero_le : le (nat 0) limit ≡ true
      zero_le = laws.lt_le _ _ positive

      limit_le : le limit limit ≡ true
      limit_le = laws.lt_le_right _ _ positive

      neg_le_zero : le (neg limit) (nat 0) ≡ true
      neg_le_zero = laws.le_trans _ _ _ (laws.neg_le _ _ zero_le) laws.neg_zero

      pub zero-IsBelow : IsBelow limit (nat 0)
      zero-IsBelow = (neg_le_zero, zero_le)

      pub clamp-IsBelow : (value : R) → IsBelow limit (clamp value (neg limit) limit)
      clamp-IsBelow value =
          clamp-Between value (neg limit) limit (laws.neg_le _ _ limit_le)
            (laws.le_trans _ _ _ neg_le_zero zero_le) limit_le

      pub positive-IsBelow : {a : R} → Between (nat 0) limit a → IsBelow limit a
      positive-IsBelow b = (laws.le_trans _ _ _ neg_le_zero b.0, b.1)

      pub negative-IsBelow : {a : R} → Between (nat 0) limit a → IsBelow limit (neg a)
      negative-IsBelow b = (
        laws.neg_le _ _ b.1,
        laws.le_trans _ _ _ (laws.le_trans _ _ _ (laws.neg_le _ _ b.0) laws.neg_zero) zero_le,
      )

      pub speed-Between : (value : R) → Between (nat 0) limit (clamp value (nat 0) limit)
      speed-Between value = clamp-Between value (nat 0) limit laws.zero_le_zero zero_le limit_le
