-- ===== src/Discovery/Snapshot.antt =====
-- src/ros_mcp/discovery/snapshot.py. What the ROS node answers is an argument: the nodes with what each
-- publishes, subscribes to and serves, the QoS profiles of a topic (none where that fails), the actions
-- and the TF frames with their parents.
use ros2_mcp_server.Base.{
  ℕ, suc, String, List, [], ◌∷◌, ◌++◌, Option, none, some, ◌==◌, if◌then◌else◌, Dict, get, put,
  contains, Except, ok, raised, sorted, text_le, concat, rstrip_slash,
}
use ros2_mcp_server.Json.{Fields}
use ros2_mcp_server.Contracts.Discovery.{
  NodeInfo, TopicInfo, ServiceInfo, ActionInfo, GraphSnapshot,
}

abbrev pub full_node_name : String → String → String
full_node_name name namespace =
    let ns = rstrip_slash namespace in
    if ns == "" then concat "/" name else concat ns (concat "/" name)

abbrev pub first_type : List String → String
first_type [] = ""
first_type (t ∷ ts) = t

-- Names with their types.
abbrev pub Typed : Type 0
Typed = List (String × List String)

pub record NodeGraph : Type 0 where
  pub name : String
  pub namespace : String
  pub publishers : Typed
  pub subscribers : Typed
  pub services : Typed
  pub clients : Typed
  pub action_servers : Except Typed

pub record RosGraph (R : Type 0) : Type 0 where
  pub nodes : List NodeGraph
  pub qos_profiles : String → List (Fields R)
  pub actions : Except Typed
  pub frames : Except (Dict (Option String))  -- each with its parent
  pub now : R

-- An entry of `topic_acc`; the two sets list their elements once.
pub record TopicEntry : Type 0 where
  pub type_name : String
  pub publishers : List String
  pub subscribers : List String

-- `s.add(x)`
abbrev pub add_to_set : String → List String → List String
add_to_set x s = if contains s x then s else x ∷ s

abbrev pub no_users : List String → TopicEntry
no_users types = record { type_name = first_type types; publishers = []; subscribers = [] }

-- `topic_acc.setdefault(topic, …)`
abbrev pub entry_of : Option TopicEntry → List String → TopicEntry
entry_of none types = no_users types
entry_of (some e) types = e

abbrev pub add_publisher : String → TopicEntry → TopicEntry
add_publisher full_name e = record e { publishers = add_to_set full_name e.publishers }

abbrev pub add_subscriber : String → TopicEntry → TopicEntry
add_subscriber full_name e = record e { subscribers = add_to_set full_name e.subscribers }

-- One of the two loops over the topics of a node.
abbrev pub add_users : (TopicEntry → TopicEntry) → Typed → Dict TopicEntry → Dict TopicEntry
add_users add [] acc = acc
add_users add ((topic, types) ∷ rest) acc =
    add_users add rest (put topic (add (entry_of (get topic acc) types)) acc)

abbrev pub add_services : Typed → Dict String → Dict String
add_services [] acc = acc
add_services ((service, types) ∷ rest) acc = add_services rest (put service (first_type types) acc)

abbrev pub names_of : Typed → List String
names_of [] = []
names_of ((name, types) ∷ rest) = name ∷ names_of rest

-- What a `try` around a call that may raise leaves.
abbrev pub or_empty {ℓ} : {A : Type ℓ} → Except (List A) → List A
or_empty (ok xs) = xs
or_empty (raised e) = []

abbrev pub node_info : NodeGraph → NodeInfo
node_info g = record {
  name = g.name;
  namespace = g.namespace;
  publishers = names_of g.publishers;
  subscribers = names_of g.subscribers;
  services = names_of g.services;
  clients = names_of g.clients;
  actions = names_of (or_empty g.action_servers);
}

-- The variables of the loop over the nodes.
pub record Walk : Type 0 where
  pub node_infos : List NodeInfo
  pub topic_acc : Dict TopicEntry
  pub service_acc : Dict String

unfoldable pub visit : NodeGraph → Walk → Walk
visit g w =
    let full_name = full_node_name g.name g.namespace in
    record {
      node_infos = w.node_infos ++ node_info g ∷ [];
      topic_acc =
          add_users (add_subscriber full_name) g.subscribers
            (add_users (add_publisher full_name) g.publishers w.topic_acc);
      service_acc = add_services g.services w.service_acc;
    }

unfoldable pub visit_all : List NodeGraph → Walk → Walk
visit_all [] w = w
visit_all (g ∷ gs) w = visit_all gs (visit g w)

-- `sorted(d.items())`, whose keys are all different.
abbrev pub insert_item {ℓ} : {A : Type ℓ} → String → A → Dict A → Dict A
insert_item k v [] = (k, v) ∷ []
insert_item k v ((j, w) ∷ d) =
    let rest = insert_item k v d in if text_le k j then (k, v) ∷ (j, w) ∷ d else (j, w) ∷ rest

abbrev pub sorted_items {ℓ} : {A : Type ℓ} → Dict A → Dict A
sorted_items [] = []
sorted_items ((k, v) ∷ d) = insert_item k v (sorted_items d)

abbrev pub service_infos : Dict String → List ServiceInfo
service_infos [] = []
service_infos ((name, type_name) ∷ d) =
    record { name = name; type_name = type_name } ∷ service_infos d

abbrev pub action_infos : Typed → List ActionInfo
action_infos [] = []
action_infos ((name, types) ∷ d) =
    record { name = name; type_name = first_type types } ∷ action_infos d

abbrev add_parent : Option String → List String → List String
add_parent none s = s
add_parent (some parent) s = if parent == "" then s else add_to_set parent s

abbrev pub frame_set : Dict (Option String) → List String → List String
frame_set [] s = s
frame_set ((frame_id, parent) ∷ d) s = frame_set d (add_parent parent (add_to_set frame_id s))

unfoldable pub tf_frames : Except (Dict (Option String)) → List String
tf_frames (raised e) = []
tf_frames (ok parsed) = sorted (frame_set parsed [])

module _ {R : Type 0} where
  abbrev pub topic_infos : (String → List (Fields R)) → Dict TopicEntry → List (TopicInfo R)
  topic_infos qos [] = []
  topic_infos qos ((topic, e) ∷ d) =
      record {
        name = topic;
        type_name = e.type_name;
        publishers = sorted e.publishers;
        subscribers = sorted e.subscribers;
        qos_profiles = qos topic;
        measured_hz = none;
        last_stamp = none;
        frame_id = none;
      }
      ∷ topic_infos qos d

  unfoldable pub collect_graph_snapshot : RosGraph R → ℕ → GraphSnapshot R
  collect_graph_snapshot g prev_version =
      let w = visit_all g.nodes (record { node_infos = []; topic_acc = []; service_acc = [] }) in
      record {
        snapshot_version = suc prev_version;
        taken_at = g.now;
        nodes = w.node_infos;
        topics = topic_infos g.qos_profiles (sorted_items w.topic_acc);
        services = service_infos (sorted_items w.service_acc);
        actions = action_infos (or_empty g.actions);
        tf_frames = tf_frames g.frames;
      }
