-- ===== src/Safety/Endpoint.antt =====
-- `_predicted_move_endpoint`, `_within_geofence` and the distance of a move of
-- safety/policy_engine.py, against their descriptions.
use ros2_mcp_server.Base.{
  String, ◌≡◌, refl, sym, ◌↔◌, inl, inr, true, false, some, arith, ok, ◌==◌, eq_iff, Bool-cases,
  Option-cases, get,
}
use ros2_mcp_server.Number.{Number}
use ros2_mcp_server.Contracts.Core.{Pose2D, MoveTarget}
use ros2_mcp_server.Contracts.Config.{SafetyConfig}
use ros2_mcp_server.Geometry.{project_translation, project, translation_local_delta}
use ros2_mcp_server.Safety.{is_rotation, move_distance, predicted_move_endpoint, within_geofence}
use ros2_mcp_server.Safety.Safe.{
  IsTurn, Covers, Heading, ahead, back, to_left, to_right, EndsAt, turns, stays, moves, InFence,
}

module _ {R : Type 0} where
  is_rotation-IsTurn : (t : MoveTarget R) → (is_rotation t.direction ≡ true) ↔ IsTurn t
  is_rotation-IsTurn t =
      let l = eq_iff t.direction "rotate_left" in
      let r = eq_iff t.direction "rotate_right" in
      (
        λ h. elim (Bool-cases (t.direction == "rotate_left")) [
          | inl e ↦ inl (l.0 e)
          | inr e ↦ inr (r.0 (ground (arith, e, h)))
        ],
        λ h. ground (arith, h, l.1, r.1),
      )

module _ {R : Type 0} ⦃n : Number R⦄ where
  pub move_distance-Covers : (t : MoveTarget R) (d : R) → (move_distance t ≡ some d) ↔ Covers t d
  move_distance-Covers t d = elim (Bool-cases (is_rotation t.direction)) [
    | inl e ↦ (λ h. absurd (ground (arith, e, h)), λ v. absurd (v.1 ((is_rotation-IsTurn t).0 e)))
    | inr e ↦ (
      λ h. (ground (arith, e, h), λ turn. absurd (cc (e, (is_rotation-IsTurn t).1 turn))),
      λ v. ground (arith, e, v.0),
    )
  ]

  pub within_geofence-InFence :
      (safety : SafetyConfig R) (x y : R)
      → (within_geofence x y safety ≡ true) ↔ InFence safety.geofence x y
  unfolding within_geofence
  within_geofence-InFence safety x y = (
    λ h. record {
      not_west = ground (arith, h);
      not_east = ground (arith, h);
      not_south = ground (arith, h);
      not_north = ground (arith, h);
    },
    λ f. ground (arith, f.not_west, f.not_east, f.not_south, f.not_north),
  )

  get-Heading :
      (direction : String) (forward lateral : R)
      → (get direction (translation_local_delta {R = R}) ≡ some (forward, lateral))
        ↔ Heading direction forward lateral
  unfolding get
  get-Heading direction forward lateral = (of_step, to_step)
    where
      of_step :
          get direction (translation_local_delta {R = R}) ≡ some (forward, lateral)
          → Heading direction forward lateral
      of_step h = elim (Bool-cases ("forward" == direction)) [
        | inl e ↦
            ahead (sym ((eq_iff "forward" direction).0 e)) (ground (arith, e, h))
              (ground (arith, e, h))
        | inr e ↦ elim (Bool-cases ("backward" == direction)) [
          | inl f ↦
              back (sym ((eq_iff "backward" direction).0 f)) (ground (arith, e, f, h))
                (ground (arith, e, f, h))
          | inr f ↦ elim (Bool-cases ("left" == direction)) [
            | inl g ↦
                to_left (sym ((eq_iff "left" direction).0 g)) (ground (arith, e, f, g, h))
                  (ground (arith, e, f, g, h))
            | inr g ↦ elim (Bool-cases ("right" == direction)) [
              | inl k ↦
                  to_right (sym ((eq_iff "right" direction).0 k)) (ground (arith, e, f, g, k, h))
                    (ground (arith, e, f, g, k, h))
              | inr k ↦ absurd (ground (arith, e, f, g, k, h))
            ]
          ]
        ]
      ]

      to_step :
          Heading direction forward lateral
          → get direction (translation_local_delta {R = R}) ≡ some (forward, lateral)
      to_step (ahead e f g) = rw (e, f, g) refl
      to_step (back e f g) = rw (e, f, g) refl
      to_step (to_left e f g) = rw (e, f, g) refl
      to_step (to_right e f g) = rw (e, f, g) refl

  Heading-is_rotation :
      (direction : String) (forward lateral : R)
      → Heading direction forward lateral
      → is_rotation direction ≡ false
  Heading-is_rotation direction forward lateral (ahead e f g) = rw e refl
  Heading-is_rotation direction forward lateral (back e f g) = rw e refl
  Heading-is_rotation direction forward lateral (to_left e f g) = rw e refl
  Heading-is_rotation direction forward lateral (to_right e f g) = rw e refl

  EndsAt-of_predicted :
      (t : MoveTarget R) (p : Pose2D R) (xy : R × R)
      → predicted_move_endpoint t p ≡ ok xy
      → EndsAt t p xy
  unfolding predicted_move_endpoint project_translation project
  EndsAt-of_predicted t p xy h = elim (Option-cases t.distance_m) [
    | inl e ↦ stays e (ground (arith, e, h))
    | inr (d, e) ↦ elim (Bool-cases (is_rotation t.direction)) [
      | inl r ↦ turns ((is_rotation-IsTurn t).0 r) (ground (arith, e, r, h))
      | inr r ↦ elim (Option-cases (get t.direction (translation_local_delta {R = R}))) [
        | inl g ↦ absurd (ground (arith, e, r, g, h))
        | inr ((forward, lateral), g) ↦
            moves d forward lateral e ((get-Heading t.direction forward lateral).0 g)
              (ground (arith, e, r, g, h))
      ]
    ]
  ]

  predicted_of-EndsAt :
      (t : MoveTarget R) (p : Pose2D R) (xy : R × R)
      → EndsAt t p xy
      → predicted_move_endpoint t p ≡ ok xy
  unfolding predicted_move_endpoint project_translation project
  predicted_of-EndsAt t p xy (turns r e) =
      ground (arith, (is_rotation-IsTurn t).1 r, e, Option-cases t.distance_m)
  predicted_of-EndsAt t p xy (stays d e) = ground (arith, d, e)
  predicted_of-EndsAt t p xy (moves d forward lateral e heading f) = ground (
    arith,
    e,
    f,
    Heading-is_rotation t.direction forward lateral heading,
    (get-Heading t.direction forward lateral).1 heading,
  )

  pub predicted-EndsAt :
      (t : MoveTarget R) (p : Pose2D R) (xy : R × R)
      → (predicted_move_endpoint t p ≡ ok xy) ↔ EndsAt t p xy
  predicted-EndsAt t p xy = (EndsAt-of_predicted t p xy, predicted_of-EndsAt t p xy)
