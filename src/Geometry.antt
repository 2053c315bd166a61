-- ===== src/Geometry.antt =====
-- src/ros_mcp/geometry.py: quaternions, distances and the projection of a translation.
pub mod Angle
use ros2_mcp_server.Base.{String, [], ◌∷◌, none, some, get, Except, ok, raised, key_error, Dict}
use ros2_mcp_server.Number.{Number, nat}

pub record Quaternion (R : Type 0) : Type 0 where
  pub x : R
  pub y : R
  pub z : R
  pub w : R

module _ {R : Type 0} ⦃n : Number R⦄ where
  open n use {plus, minus, times, over, neg, cos, sin, hypot, atan2}

  unfoldable pub quaternion_to_yaw : Quaternion R → R
  quaternion_to_yaw q =
      let siny_cosp = times (nat 2) (plus (times q.w q.z) (times q.x q.y)) in
      let cosy_cosp = minus (nat 1) (times (nat 2) (plus (times q.y q.y) (times q.z q.z))) in
      atan2 siny_cosp cosy_cosp

  pub yaw_to_quaternion : R → Quaternion R
  yaw_to_quaternion yaw =
      let half = over yaw (nat 2) in record { x = nat 0; y = nat 0; z = sin half; w = cos half }

  unfoldable pub euclidean_distance : R → R → R → R → R
  euclidean_distance x1 y1 x2 y2 = hypot (minus x2 x1) (minus y2 y1)

  -- (forward, lateral) unit displacement in the robot's own frame.
  abbrev pub translation_local_delta : Dict (R × R)
  translation_local_delta =
      ("forward", (nat 1, nat 0))
      ∷ ("backward", (neg (nat 1), nat 0))
      ∷ ("left", (nat 0, nat 1))
      ∷ ("right", (nat 0, neg (nat 1)))
      ∷ []

  unfoldable pub project : R × R → R → R → R → R → R × R
  project (forward, lateral) distance_m x y yaw =
      let dx_local = times forward distance_m in
      let dy_local = times lateral distance_m in
      let dx_world = minus (times dx_local (cos yaw)) (times dy_local (sin yaw)) in
      let dy_world = plus (times dx_local (sin yaw)) (times dy_local (cos yaw)) in
      (plus x dx_world, plus y dy_world)

  -- An unknown direction is a KeyError.
  unfoldable pub project_translation : String → R → R → R → R → Except (R × R)
  unfolding project get
  project_translation direction distance_m x y yaw = elim (get direction translation_local_delta) [
    | none ↦ raised (key_error direction)
    | some delta ↦ ok (project delta distance_m x y yaw)
  ]
