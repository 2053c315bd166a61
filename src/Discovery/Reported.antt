-- ===== src/Discovery/Reported.antt =====
-- The walk of discovery/snapshot.py against what the nodes of the graph report.
use ros2_mcp_server.Base.{
  ℕ, String, ◌≡◌, refl, ap, ◌∙◌, Bool, true, false, ◌&&◌, ◌||◌, List, [], ◌∷◌, Option, none, some,
  ◌==◌, eq_iff, if◌then◌else◌, Dict, get, put, get-put, contains, any, sorted, insert_text,
  Bool-cases, inl, inr, arith,
}
use ros2_mcp_server.Json.{Fields}
use ros2_mcp_server.Contracts.Discovery.{TopicInfo}
use ros2_mcp_server.Discovery.Snapshot.{
  full_node_name, Typed, NodeGraph, RosGraph, TopicEntry, add_to_set, entry_of, add_publisher,
  add_subscriber, add_users, names_of, Walk, visit, visit_all, insert_item, sorted_items,
  topic_infos, collect_graph_snapshot,
}

-- The node `g` has the full name `f` and reports that it publishes the topic `t`.
abbrev pub reports : String → String → NodeGraph → Bool
reports t f g = contains (names_of g.publishers) t && full_node_name g.name g.namespace == f

-- Among topics, the one named `t` lists the publisher `f`.
abbrev pub lists_publisher : {R : Type 0} → String → String → List (TopicInfo R) → Bool
lists_publisher t f [] = false
lists_publisher t f (i ∷ is) =
    let rest = lists_publisher t f is in if i.name == t then contains i.publishers f else rest

abbrev publishes : Option TopicEntry → String → Bool
publishes none f = false
publishes (some e) f = contains e.publishers f

contains-insert_text :
    (s f : String) (xs : List String) → contains (insert_text s xs) f ≡ s == f || contains xs f
contains-insert_text s f [] = refl
contains-insert_text s f (x ∷ xs) = ground (arith, contains-insert_text s f xs)

contains-sorted : (f : String) (xs : List String) → contains (sorted xs) f ≡ contains xs f
contains-sorted f [] = refl
contains-sorted f (x ∷ xs) =
    contains-insert_text x f (sorted xs) ∙ ap (λ b. x == f || b) (contains-sorted f xs)

contains-add_to_set :
    (s f : String) (xs : List String) → contains (add_to_set s xs) f ≡ s == f || contains xs f
contains-add_to_set s f xs = ground (arith, eq_iff s f)

add_publisher-publishes :
    (n f : String) (types : List String) (o : Option TopicEntry)
    → publishes (some (add_publisher n (entry_of o types))) f ≡ n == f || publishes o f
add_publisher-publishes n f types none = contains-add_to_set n f []
add_publisher-publishes n f types (some e) = contains-add_to_set n f e.publishers

add_subscriber-publishes :
    (n f : String) (types : List String) (o : Option TopicEntry)
    → publishes (some (add_subscriber n (entry_of o types))) f ≡ publishes o f
add_subscriber-publishes n f types none = refl
add_subscriber-publishes n f types (some e) = refl

put-publishes :
    (topic t f : String) (e : TopicEntry) (acc : Dict TopicEntry)
    → publishes (get t (put topic e acc)) f
      ≡ (if topic == t then publishes (some e) f else publishes (get t acc) f)
put-publishes topic t f e acc = elim (Bool-cases (topic == t)) [
  | inl h ↦ rw (get-put topic t e acc, h) refl
  | inr h ↦ rw (get-put topic t e acc, h) refl
]

add_publishers-publishes :
    (n t f : String) (xs : Typed) (acc : Dict TopicEntry)
    → publishes (get t (add_users (add_publisher n) xs acc)) f
      ≡ (contains (names_of xs) t && n == f) || publishes (get t acc) f
add_publishers-publishes n t f [] acc = refl
add_publishers-publishes n t f ((topic, types) ∷ xs) acc = ground (
  arith,
  add_publishers-publishes n t f xs
      (put topic (add_publisher n (entry_of (get topic acc) types)) acc),
  put-publishes topic t f (add_publisher n (entry_of (get topic acc) types)) acc,
  add_publisher-publishes n f types (get topic acc),
  eq_iff topic t,
)

add_subscribers-publishes :
    (n t f : String) (xs : Typed) (acc : Dict TopicEntry)
    → publishes (get t (add_users (add_subscriber n) xs acc)) f ≡ publishes (get t acc) f
add_subscribers-publishes n t f [] acc = refl
add_subscribers-publishes n t f ((topic, types) ∷ xs) acc = ground (
  arith,
  add_subscribers-publishes n t f xs
      (put topic (add_subscriber n (entry_of (get topic acc) types)) acc),
  put-publishes topic t f (add_subscriber n (entry_of (get topic acc) types)) acc,
  add_subscriber-publishes n f types (get topic acc),
  eq_iff topic t,
)

visit-publishes :
    (t f : String) (g : NodeGraph) (w : Walk)
    → publishes (get t (visit g w).topic_acc) f ≡ reports t f g || publishes (get t w.topic_acc) f
unfolding visit
visit-publishes t f g w =
    add_subscribers-publishes (full_node_name g.name g.namespace) t f g.subscribers
      (add_users (add_publisher (full_node_name g.name g.namespace)) g.publishers w.topic_acc)
    ∙ add_publishers-publishes (full_node_name g.name g.namespace) t f g.publishers w.topic_acc

or_swap : (a b c : Bool) → a || (b || c) ≡ (b || a) || c
or_swap true true c = refl
or_swap true false c = refl
or_swap false true c = refl
or_swap false false c = refl

visit_all-publishes :
    (t f : String) (gs : List NodeGraph) (w : Walk)
    → publishes (get t (visit_all gs w).topic_acc) f
      ≡ any (reports t f) gs || publishes (get t w.topic_acc) f
unfolding visit_all
visit_all-publishes t f [] w = refl
visit_all-publishes t f (g ∷ gs) w =
    visit_all-publishes t f gs (visit g w)
    ∙ ap (λ b. any (reports t f) gs || b) (visit-publishes t f g w)
    ∙ or_swap (any (reports t f) gs) (reports t f g) (publishes (get t w.topic_acc) f)

or_false : {a b : Bool} → a ≡ b || false → a ≡ b
or_false h = ground arith

get-insert_item :
    (k t : String) (v : TopicEntry) (d : Dict TopicEntry)
    → get t (insert_item k v d) ≡ (if k == t then some v else get t d)
unfolding get
get-insert_item k t v [] = refl
get-insert_item k t v ((j, w) ∷ d) =
    ground (arith, get-insert_item k t v d, eq_iff k t, eq_iff j t, eq_iff k j)

get-sorted_items : (t : String) (d : Dict TopicEntry) → get t (sorted_items d) ≡ get t d
unfolding get
get-sorted_items t [] = refl
get-sorted_items t ((k, v) ∷ d) =
    get-insert_item k t v (sorted_items d)
    ∙ ap (λ o. if k == t then some v else o) (get-sorted_items t d)

module _ {R : Type 0} where
  topic_infos-publishers :
      (qos : String → List (Fields R)) (t f : String) (d : Dict TopicEntry)
      → lists_publisher t f (topic_infos qos d) ≡ publishes (get t d) f
  unfolding get
  topic_infos-publishers qos t f [] = refl
  topic_infos-publishers qos t f ((k, e) ∷ d) = elim (Bool-cases (k == t)) [
    | inl h ↦ rw h (contains-sorted f e.publishers)
    | inr h ↦ rw h (topic_infos-publishers qos t f d)
  ]

  -- A snapshot lists a publisher of a topic exactly when some node with that full name reports that
  -- it publishes the topic.
  pub collect-publishers :
      (g : RosGraph R) (prev_version : ℕ) (t f : String)
      → lists_publisher t f (collect_graph_snapshot g prev_version).topics
        ≡ any (reports t f) g.nodes
  unfolding collect_graph_snapshot get
  collect-publishers g prev_version t f =
      let walk = visit_all g.nodes (record { node_infos = []; topic_acc = []; service_acc = [] }) in
      let all =
        visit_all-publishes t f g.nodes
          (record { node_infos = []; topic_acc = []; service_acc = [] }) in
      topic_infos-publishers g.qos_profiles t f (sorted_items walk.topic_acc)
      ∙ ap (λ o. publishes o f) (get-sorted_items t walk.topic_acc)
      ∙ or_false all
