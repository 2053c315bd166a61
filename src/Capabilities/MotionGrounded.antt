-- ===== src/Capabilities/MotionGrounded.antt =====
-- The entry of capabilities/ontology.py for the motion base, which needs two topics at once.
use ros2_mcp_server.Base.{
  String, ◌≡◌, refl, Bool, true, List, [], ◌∷◌, Option, none, some, ◌==◌, eq_iff, arith, Dict, keep,
  sole, any, contains, Option-cases, Bool-cases, inl, inr,
}
use ros2_mcp_server.Contracts.Core.{Confidence, ambiguous}
use ros2_mcp_server.Contracts.Config.{CapabilityConfig, SafetyConfig}
use ros2_mcp_server.Contracts.Discovery.{TopicInfo, GraphSnapshot}
use ros2_mcp_server.Capabilities.Ontology.{
  twist_types, odom_type, topics_of_type, topics_of_types, named, match_motion, motion_entry,
  infer_differential_drive_motion,
}
use ros2_mcp_server.Capabilities.Grounded.{is_topic, AllStand, GroundedIf, named-any, sole-any}

module _ {R : Type 0} where
  TopicStands : GraphSnapshot R → List String → Option (TopicInfo R) → Type 0
  TopicStands snapshot types none = Unit
  TopicStands snapshot types (some t) = any (is_topic types t.name) snapshot.topics ≡ true

  record MotionStands (snapshot : GraphSnapshot R) (found : Confidence × Dict String) : Type 0 where
    stands : AllStand snapshot found.1
    not_guessed : found.0 ≡ ambiguous → found.1 ≡ []

  match_motion-MotionStands :
      (snapshot : GraphSnapshot R) (c o c' o' : Option (TopicInfo R))
      → TopicStands snapshot twist_types c
      → TopicStands snapshot (odom_type ∷ []) o
      → TopicStands snapshot twist_types c'
      → TopicStands snapshot (odom_type ∷ []) o'
      → MotionStands snapshot (match_motion c o c' o')
  unfolding TopicStands
  match_motion-MotionStands snapshot (some c) (some o) c' o' h k h' k' = record {
    stands = (h, (k, tt));
    not_guessed = λ e. absurd (cc);
  }
  match_motion-MotionStands snapshot none o (some c) (some o') h k h' k' = record {
    stands = (h', (k', tt));
    not_guessed = λ e. absurd (cc);
  }
  match_motion-MotionStands snapshot (some _) none (some c) (some o') h k h' k' = record {
    stands = (h', (k', tt));
    not_guessed = λ e. absurd (cc);
  }
  match_motion-MotionStands snapshot none o none o' h k h' k' = record {
    stands = tt;
    not_guessed = λ e. refl;
  }
  match_motion-MotionStands snapshot none o (some _) none h k h' k' = record {
    stands = tt;
    not_guessed = λ e. refl;
  }
  match_motion-MotionStands snapshot (some _) none none o' h k h' k' = record {
    stands = tt;
    not_guessed = λ e. refl;
  }
  match_motion-MotionStands snapshot (some _) none (some _) none h k h' k' = record {
    stands = tt;
    not_guessed = λ e. refl;
  }

  motion_entry-GroundedIf :
      (snapshot : GraphSnapshot R) (overrides : CapabilityConfig) (safety : SafetyConfig R)
      (twists odoms : List (TopicInfo R))
      → MotionStands snapshot (
          match_motion
            (named overrides.motion.cmd_vel_topic twists)
            (named overrides.motion.odom_topic odoms)
            (sole twists)
            (sole odoms))
      → GroundedIf snapshot (motion_entry overrides.motion safety twists odoms)
  motion_entry-GroundedIf snapshot overrides safety [] odoms h = tt
  motion_entry-GroundedIf snapshot overrides safety (t ∷ ts) [] h = tt
  motion_entry-GroundedIf snapshot overrides safety (t ∷ ts) (o ∷ os) h = record {
    stands = h.stands;
    not_guessed = h.not_guessed;
  }

  TopicStands-of_kept :
      (snapshot : GraphSnapshot R) (q : TopicInfo R → Bool) (types : List String)
      (configured : String)
      → ((u : TopicInfo R) → q u ≡ true → contains types u.type_name ≡ true)
      → TopicStands snapshot types (named configured (keep q snapshot.topics))
        × TopicStands snapshot types (sole (keep q snapshot.topics))
  unfolding TopicStands
  TopicStands-of_kept snapshot q types configured h = (
    elim (Option-cases (named configured (keep q snapshot.topics))) [
      | inl e ↦ rw e tt
      | inr (t, e) ↦ rw e (named-any snapshot q types configured h e)
    ],
    elim (Option-cases (sole (keep q snapshot.topics))) [
      | inl e ↦ rw e tt
      | inr (t, e) ↦ rw e (sole-any snapshot q types h e)
    ],
  )

  pub infer_motion-GroundedIf :
      (snapshot : GraphSnapshot R) (overrides : CapabilityConfig) (safety : SafetyConfig R)
      → GroundedIf snapshot (infer_differential_drive_motion snapshot overrides safety)
  unfolding infer_differential_drive_motion
  infer_motion-GroundedIf snapshot overrides safety =
      let twist =
        TopicStands-of_kept snapshot (λ u. contains twist_types u.type_name) twist_types
          overrides.motion.cmd_vel_topic (λ u k. k) in
      let odom =
        TopicStands-of_kept snapshot (λ u. u.type_name == odom_type) (odom_type ∷ [])
          overrides.motion.odom_topic (λ u k. ground (arith, k, eq_iff u.type_name odom_type)) in
      let entry =
        motion_entry-GroundedIf snapshot overrides safety (topics_of_types snapshot twist_types)
          (topics_of_type snapshot odom_type)
          (match_motion-MotionStands snapshot _ _ _ _ twist.0 odom.0 twist.1 odom.1) in
      elim (Bool-cases overrides.motion.enabled) [
        | inl e ↦ rw (e, infer_differential_drive_motion) entry
        | inr e ↦ rw (e, infer_differential_drive_motion) tt
      ]
