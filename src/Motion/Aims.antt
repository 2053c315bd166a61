-- ===== src/Motion/Aims.antt =====
-- The sign with which a move of adapters/motion/cmd_vel_plugin.py drives, by its direction.
use ros2_mcp_server.Base.{
  ℕ, String, ◌≡◌, refl, sym, subst, Bool, true, false, if◌then◌else◌, ◌⊎◌, Option, none, some,
  Except, ok, ◌==◌, ◌>>=◌, inl, inr, Bool-cases, assert_some, eq_iff,
}
use ros2_mcp_server.Number.{Number, IsRounded, nat}
use ros2_mcp_server.Contracts.Core.{Pose2D, MoveTarget}
use ros2_mcp_server.Motion.Plan.{
  turning, Aim, sector_of, aim_at, is_rotation_of, is_straight, towards,
}

-- The side to which a move drives, which is the front except for "backward".
abbrev pub travel_sector : String → String
travel_sector direction = if direction == "backward" then "rear" else "front"

module _ {R : Type 0} ⦃n : Number R⦄ where
  open n use {le, neg, plus, times, over, pi}

  abbrev pub sign_of : String → R
  sign_of direction =
      if is_rotation_of direction
      then nat 0
      else if is_straight direction
      then if direction == "forward" then nat 1 else neg (nat 1)
      else nat 1

  -- What holds of an aim, where there is one.
  abbrev Aims : (Aim R → Type 0) → Except (Option (Aim R)) → Type 0
  Aims P (ok (some a)) = P a
  Aims P _ = Unit

  if-Aims :
      (b : Bool) (x y : Except (Option (Aim R))) (r s : R)
      → Aims (λ a. a.drive_sign ≡ r) x
      → Aims (λ a. a.drive_sign ≡ s) y
      → Aims (λ a. a.drive_sign ≡ (if b then r else s)) (if b then x else y)
  if-Aims true x y r s h k = h
  if-Aims false x y r s h k = k

  assert-Aims :
      (P : Aim R → Type 0) (f : R → Except (Option (Aim R))) (o : Option R)
      → ((x : R) → Aims P (f x))
      → Aims P (assert_some o >>= f)
  assert-Aims P f none h = tt
  assert-Aims P f (some x) h = h x

  towards-Aims :
      (b : Bool) (s d : R) (o : Option R) → Aims (λ a. a.drive_sign ≡ s) (ok (towards b s d o))
  towards-Aims b s d none = tt
  towards-Aims b s d (some heading) = refl

  aim_at-Aims :
      (turns : ℕ) (pose : Pose2D R) (t : MoveTarget R)
      → Aims (λ a. a.drive_sign ≡ sign_of t.direction) (aim_at turns pose t)
  unfolding aim_at
  aim_at-Aims turns pose t =
      if-Aims (is_rotation_of t.direction) _ _ _ _
        (assert-Aims _ _ t.angle_deg (λ x. towards-Aims true _ _ _))
        (if-Aims (is_straight t.direction) _ _ _ _ (assert-Aims _ _ t.distance_m (λ x. refl))
          (assert-Aims _ _ t.distance_m (λ x. towards-Aims false _ _ _)))

  -- The sign of a planned move is that of its direction.
  pub aim_at-sign :
      (turns : ℕ) (pose : Pose2D R) (t : MoveTarget R) {a : Aim R}
      → aim_at turns pose t ≡ ok (some a)
      → a.drive_sign ≡ sign_of t.direction
  aim_at-sign turns pose t e =
      subst (Aims (λ a. a.drive_sign ≡ sign_of t.direction)) e (aim_at-Aims turns pose t)

  sign_of-front :
      IsRounded n
      → (direction : String) → direction == "backward" ≡ false
      → le (nat 0) (sign_of direction) ≡ true
  sign_of-front laws direction h = elim (Bool-cases (is_rotation_of direction)) [
    | inl e ↦ rw e laws.zero_le_zero
    | inr e ↦ elim (Bool-cases (direction == "forward")) [
      | inl f ↦ rw (e, f) laws.zero_le_one
      | inr f ↦ rw (e, f, h) laws.zero_le_one
    ]
  ]

  -- The loop checks the sector to which the move drives.
  pub sector_of-sign :
      IsRounded n → (direction : String) → sector_of (sign_of direction) ≡ travel_sector direction
  sector_of-sign laws direction = elim (Bool-cases (direction == "backward")) [
    | inr e ↦ rw (sign_of-front laws direction e, e) refl
    | inl e ↦
        subst (λ s. sector_of (sign_of s) ≡ travel_sector s)
          (sym ((eq_iff direction "backward").0 e)) (rw laws.minus_one_below refl)
  ]

  -- A drive forwards or backwards.
  abbrev pub IsUnit : R → Type 0
  IsUnit sign = (sign ≡ nat 1) ⊎ (sign ≡ neg (nat 1))

  -- Only a move that is no rotation drives.
  abbrev pub Drives : Aim R → Type 0
  Drives a =
      ((a.is_rotation ≡ true) × (a.start_phase ≡ turning))
      ⊎ ((a.is_rotation ≡ false) × IsUnit a.drive_sign)

  choose-Aims :
      (P : Aim R → Type 0) (b : Bool) (x y : Except (Option (Aim R)))
      → Aims P x
      → Aims P y
      → Aims P (if b then x else y)
  choose-Aims P true x y h k = h
  choose-Aims P false x y h k = k

  rotation-Drives : (d : R) (o : Option R) → Aims Drives (ok (towards true (nat 0) d o))
  rotation-Drives d none = tt
  rotation-Drives d (some heading) = inl (refl, refl)

  sideways-Drives : (d : R) (o : Option R) → Aims Drives (ok (towards false (nat 1) d o))
  sideways-Drives d none = tt
  sideways-Drives d (some heading) = inr (refl, inl refl)

  straight-IsUnit : (b : Bool) → IsUnit (if b then nat 1 else neg (nat 1))
  straight-IsUnit true = inl refl
  straight-IsUnit false = inr refl

  Aims-Drives : (turns : ℕ) (pose : Pose2D R) (t : MoveTarget R) → Aims Drives (aim_at turns pose t)
  unfolding aim_at
  Aims-Drives turns pose t =
      choose-Aims Drives (is_rotation_of t.direction) _ _
        (assert-Aims _ _ t.angle_deg (λ x. rotation-Drives _ _))
        (choose-Aims Drives (is_straight t.direction) _ _
          (assert-Aims _ _ t.distance_m
            (λ x. inr (refl, straight-IsUnit (t.direction == "forward"))))
          (assert-Aims _ _ t.distance_m (λ x. sideways-Drives _ _)))

  pub aim_at-Drives :
      (turns : ℕ) (pose : Pose2D R) (t : MoveTarget R) {a : Aim R}
      → aim_at turns pose t ≡ ok (some a)
      → Drives a
  aim_at-Drives turns pose t e = subst (Aims Drives) e (Aims-Drives turns pose t)
