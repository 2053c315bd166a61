-- ===== src/Capabilities/Grounded.antt =====
-- What the entries of capabilities/inference.py rest on: the names that they resolve stand in the
-- snapshot, and what is ambiguous resolves none.
use ros2_mcp_server.Base.{
  String, ◌≡◌, refl, Bool, true, false, ◌&&◌, List, [], ◌∷◌, Option, none, some, ◌==◌, eq_refl,
  arith, if◌then◌else◌, Dict, keep, find, sole, any, any_of_find, any_of_sole, contains,
  Option-cases, inl, inr,
}
use ros2_mcp_server.Contracts.Core.{ambiguous}
use ros2_mcp_server.Contracts.Discovery.{TopicInfo, ActionInfo, GraphSnapshot, CapabilityEntry}
use ros2_mcp_server.Capabilities.Ontology.{
  twist_types, image_types, odom_type, laser_scan_type, pose_with_cov_type, navigate_to_pose_type,
  Match, exactly, only, unclear, match_confidence, named, match_one, resolved,
  resolve_single_topic_capability,
}

-- The topic types that a resolved key stands for.
abbrev pub types_of : String → List String
types_of key =
    if key == "cmd_vel"
    then twist_types
    else if key == "odom"
    then odom_type ∷ []
    else if key == "scan"
    then laser_scan_type ∷ []
    else if key == "image"
    then image_types
    else if key == "amcl_pose"
    then pose_with_cov_type ∷ []
    else []

abbrev pub is_action : String → ActionInfo → Bool
is_action name a = a.name == name && a.type_name == navigate_to_pose_type

module _ {R : Type 0} where
  abbrev pub is_topic : List String → String → TopicInfo R → Bool
  is_topic types name t = t.name == name && contains types t.type_name

  -- The graph has an interface of that name, with a type that serves the key.
  abbrev pub stands_in : GraphSnapshot R → String × String → Bool
  stands_in snapshot (key, name) =
      if key == "navigate_to_pose_action"
      then any (is_action name) snapshot.actions
      else any (is_topic (types_of key) name) snapshot.topics

  abbrev pub AllStand : GraphSnapshot R → Dict String → Type 0
  AllStand snapshot [] = Unit
  AllStand snapshot (entry ∷ d) = (stands_in snapshot entry ≡ true) × AllStand snapshot d

  -- An entry that resolves only interfaces of the graph, and none where it is ambiguous.
  pub record IsGrounded (snapshot : GraphSnapshot R) (e : CapabilityEntry R) : Type 0 where
    pub stands : AllStand snapshot e.resolved_topics
    pub not_guessed : e.confidence ≡ ambiguous → e.resolved_topics ≡ []

  abbrev pub GroundedIf : GraphSnapshot R → Option (CapabilityEntry R) → Type 0
  GroundedIf snapshot none = Unit
  GroundedIf snapshot (some e) = IsGrounded snapshot e

  -- What is named among the kept topics stands in the snapshot.
  pub named-any :
      (snapshot : GraphSnapshot R) (q : TopicInfo R → Bool) (types : List String)
      (configured : String) {t : TopicInfo R}
      → ((u : TopicInfo R) → q u ≡ true → contains types u.type_name ≡ true)
      → named configured (keep q snapshot.topics) ≡ some t
      → any (is_topic types t.name) snapshot.topics ≡ true
  named-any snapshot q types configured {t} h e =
      any_of_find _ q (is_topic types t.name) snapshot.topics e
        (λ k. ground (arith, eq_refl t.name, h t k))

  pub sole-any :
      (snapshot : GraphSnapshot R) (q : TopicInfo R → Bool) (types : List String) {t : TopicInfo R}
      → ((u : TopicInfo R) → q u ≡ true → contains types u.type_name ≡ true)
      → sole (keep q snapshot.topics) ≡ some t
      → any (is_topic types t.name) snapshot.topics ≡ true
  sole-any snapshot q types {t} h e =
      any_of_sole q (is_topic types t.name) snapshot.topics e
        (λ k. ground (arith, eq_refl t.name, h t k))

  pub action-any :
      (snapshot : GraphSnapshot R) (configured : String) {a : ActionInfo}
      → find
          (λ b. b.name == configured)
          (keep (λ b. b.type_name == navigate_to_pose_type) snapshot.actions)
        ≡ some a
      → any (is_action a.name) snapshot.actions ≡ true
  action-any snapshot configured {a} e =
      any_of_find _ _ (is_action a.name) snapshot.actions e (λ k. ground (arith, eq_refl a.name, k))

  pub sole_action-any :
      (snapshot : GraphSnapshot R) {a : ActionInfo}
      → sole (keep (λ b. b.type_name == navigate_to_pose_type) snapshot.actions) ≡ some a
      → any (is_action a.name) snapshot.actions ≡ true
  sole_action-any snapshot {a} e =
      any_of_sole _ (is_action a.name) snapshot.actions e (λ k. ground (arith, eq_refl a.name, k))

  -- A topic that is matched stands in the snapshot.
  pub MatchStands : GraphSnapshot R → List String → Match → Type 0
  MatchStands snapshot types (exactly name) = any (is_topic types name) snapshot.topics ≡ true
  MatchStands snapshot types (only name) = any (is_topic types name) snapshot.topics ≡ true
  MatchStands snapshot types unclear = Unit

  pub match_one-MatchStands :
      (snapshot : GraphSnapshot R) (q : TopicInfo R → Bool) (types : List String)
      (configured : String)
      → ((u : TopicInfo R) → q u ≡ true → contains types u.type_name ≡ true)
      → MatchStands snapshot types
          (match_one (named configured (keep q snapshot.topics)) (sole (keep q snapshot.topics)))
  unfolding MatchStands
  match_one-MatchStands snapshot q types configured h =
      elim (Option-cases (named configured (keep q snapshot.topics))) [
        | inr (t, e) ↦ rw e (named-any snapshot q types configured h e)
        | inl e ↦ rw e (elim (Option-cases (sole (keep q snapshot.topics))) [
          | inr (t, k) ↦ rw k (sole-any snapshot q types h k)
          | inl k ↦ rw k tt
        ])
      ]

  match-IsGrounded :
      (snapshot : GraphSnapshot R) (key : String) (e : CapabilityEntry R) (found : Match)
      → (key == "navigate_to_pose_action") ≡ false
      → MatchStands snapshot (types_of key) found
      → e.confidence ≡ match_confidence found
      → e.resolved_topics ≡ resolved key found
      → IsGrounded snapshot e
  unfolding MatchStands
  match-IsGrounded snapshot key e (exactly name) topic h p q = record {
    stands = rw (q, topic) (h, tt);
    not_guessed = λ k. absurd (cc);
  }
  match-IsGrounded snapshot key e (only name) topic h p q = record {
    stands = rw (q, topic) (h, tt);
    not_guessed = λ k. absurd (cc);
  }
  match-IsGrounded snapshot key e unclear topic h p q = record {
    stands = rw q tt;
    not_guessed = λ k. q;
  }

  -- The entry of `resolve_single_topic_capability`, whatever the candidates.
  pub single-GroundedIf :
      (snapshot : GraphSnapshot R) (id backend configured key : String) (cs : List (TopicInfo R))
      → MatchStands snapshot (types_of key) (match_one (named configured cs) (sole cs))
      → (key == "navigate_to_pose_action") ≡ false
      → GroundedIf snapshot (resolve_single_topic_capability id backend configured cs key)
  unfolding resolve_single_topic_capability
  single-GroundedIf snapshot id backend configured key [] h topic = tt
  single-GroundedIf snapshot id backend configured key (t ∷ ts) h topic =
      match-IsGrounded snapshot key _ (match_one (named configured (t ∷ ts)) (sole (t ∷ ts))) topic
        h refl refl
