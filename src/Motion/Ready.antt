-- ===== src/Motion/Ready.antt =====
-- A move of adapters/motion/cmd_vel_plugin.py whose target validation has accepted raises none of the
-- assertions of the code before its loop.
use ros2_mcp_server.Base.{
  ℕ, String, ◌≡◌, refl, sym, subst, Bool, true, false, ◌||◌, if◌then◌else◌, Option, none, some, inl,
  inr, Except, ok, raised, assert_some, ◌>>=◌, contains, arith, ◌==◌, Bool-cases, eq_iff, ◌∙◌,
}
use ros2_mcp_server.Number.{Number}
use ros2_mcp_server.Contracts.Core.{
  Pose2D, MoveTarget, move_target, SafetyConstraints, SemanticCommand,
}
use ros2_mcp_server.Validation.Engine.{translation_directions, rotation_directions}
use ros2_mcp_server.Commands.Validated.{MoveIsComplete, Present}
use ros2_mcp_server.Motion.{Plugin, Instant, current_pose}
use ros2_mcp_server.Motion.Plan.{
  Aim, Next, raising, aim_at, is_rotation_of, is_straight, rotation, sideways,
}
use ros2_mcp_server.Motion.Control.{begin, begin_at, begin_move, start, set_off}

eq_comm : (a b : String) → (a == b) ≡ (b == a)
eq_comm a b = elim (Bool-cases (a == b)) [
  | inl e ↦ e ∙ sym ((eq_iff b a).1 (sym ((eq_iff a b).0 e)))
  | inr e ↦ elim (Bool-cases (b == a)) [
    | inr f ↦ e ∙ sym f
    | inl f ↦ absurd (let same = (eq_iff a b).1 (sym ((eq_iff b a).0 f)) in cc)
  ]
]

rotations_agree : (s : String) → contains rotation_directions s ≡ is_rotation_of s
rotations_agree s = rw (eq_comm "rotate_left" s, eq_comm "rotate_right" s) (ground arith)

rotates : (s : String) → is_rotation_of s ≡ true → contains rotation_directions s ≡ true
rotates s h = rotations_agree s ∙ h

translates :
    (s : String)
    → is_rotation_of s ≡ false
    → contains translation_directions s || contains rotation_directions s ≡ true
    → contains translation_directions s ≡ true
translates s h k =
    let none_of_two = rotations_agree s ∙ h in
    elim (Bool-cases (contains translation_directions s)) [
      | inl e ↦ e
      | inr e ↦ absurd (let neither = rw (e, none_of_two) at k in cc)
    ]

module _ {R : Type 0} where
  abbrev pub NotRaising : Next R → Type 0
  NotRaising (raising e) = ⊥
  NotRaising _ = Unit

  abbrev NotRaised : Except (Option (Aim R)) → Type 0
  NotRaised (ok o) = Unit
  NotRaised (raised e) = ⊥

module _ {R : Type 0} ⦃n : Number R⦄ where
  -- A move that raises no assertion: its target is complete, and it has its constraints.
  pub record IsReady (command : SemanticCommand R) : Type 0 where
    pub target : MoveTarget R
    pub has_target : command.target ≡ move_target target
    pub complete : MoveIsComplete target
    pub constraints : SafetyConstraints R
    pub has_constraints : command.safety_constraints ≡ some constraints

  module _ (turns : ℕ) where
    rotation-NotRaised :
        (pose : Pose2D R) (t : MoveTarget R) (o : Option R)
        → is_rotation_of t.direction ≡ true
        → MoveIsComplete t
        → t.angle_deg ≡ o
        → NotRaised (assert_some o >>= (λ x. ok (rotation turns pose t x)))
    rotation-NotRaised pose t none h c e =
        absurd (subst (Present _) e (c.angle (rotates t.direction h)))
    rotation-NotRaised pose t (some a) h c e = tt

    translation-NotRaised :
        (t : MoveTarget R) (o : Option R) (f : R → Option (Aim R))
        → is_rotation_of t.direction ≡ false
        → MoveIsComplete t
        → t.distance_m ≡ o
        → NotRaised (assert_some o >>= (λ x. ok (f x)))
    translation-NotRaised t none f h c e =
        absurd (subst (Present _) e (c.distance (translates t.direction h c.known)))
    translation-NotRaised t (some d) f h c e = tt

    if-NotRaised :
        (b : Bool) (x y : Except (Option (Aim R)))
        → (b ≡ true → NotRaised x)
        → (b ≡ false → NotRaised y)
        → NotRaised (if b then x else y)
    if-NotRaised true x y f g = f refl
    if-NotRaised false x y f g = g refl

    aim_at-NotRaised :
        (pose : Pose2D R) (t : MoveTarget R) → MoveIsComplete t → NotRaised (aim_at turns pose t)
    unfolding aim_at
    aim_at-NotRaised pose t c =
        if-NotRaised (is_rotation_of t.direction) _ _
          (λ h. rotation-NotRaised pose t t.angle_deg h c refl)
          (λ h.
            if-NotRaised (is_straight t.direction) _ _
              (λ s. translation-NotRaised t t.distance_m _ h c refl)
              (λ s. translation-NotRaised t t.distance_m (sideways turns pose t) h c refl))

module _ {R V M : Type 0} ⦃n : Number R⦄ (turns : ℕ) where
  set_off-NotRaising :
      (command : SemanticCommand R) (c : SafetyConstraints R) (i : Instant R V M) (pose : Pose2D R)
      (m : Except (Option (Aim R)))
      → NotRaised m
      → NotRaising (set_off command c i pose m)
  set_off-NotRaising command c i pose (ok none) h = tt
  set_off-NotRaising command c i pose (ok (some a)) h = tt
  set_off-NotRaising command c i pose (raised e) h = absurd h

  start-NotRaising :
      (command : SemanticCommand R) (t : MoveTarget R) (c : SafetyConstraints R) (i : Instant R V M)
      (q : Option (Pose2D R) × Bool)
      → MoveIsComplete t
      → NotRaising (start turns command t c i q).next
  start-NotRaising command t c i (some pose, true) h =
      set_off-NotRaising command c i pose (aim_at turns pose t) (aim_at-NotRaised turns pose t h)
  start-NotRaising command t c i (some pose, false) h = tt
  start-NotRaising command t c i (none, true) h = tt
  start-NotRaising command t c i (none, false) h = tt

  module _ (p : Plugin R M) where
    pub begin-NotRaising :
        (command : SemanticCommand R) (i : Instant R V M)
        → IsReady command
        → NotRaising (begin turns p command i).next
    unfolding begin
    begin-NotRaising command i r =
        subst (λ x. NotRaising (begin_at turns p command i x).next) (sym r.has_target)
          (subst (λ c. NotRaising (begin_move turns p command i r.target c).next)
            (sym r.has_constraints)
            (start-NotRaising command r.target r.constraints i (current_pose p i) r.complete))
