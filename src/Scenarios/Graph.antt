-- ===== src/Scenarios/Graph.antt =====
-- A graph of two nodes, and polls of a graph that changes once.
use ros2_mcp_server.Base.{
  ℕ, String, ◌≡◌, refl, Bool, true, false, List, [], ◌∷◌, Option, none, some, any, Except, ok,
  raised, runtime_error,
}
use ros2_mcp_server.Number.Fixed.{ℤ, fixed}
use ros2_mcp_server.Contracts.Config.{CapabilityConfig}
use ros2_mcp_server.Contracts.Discovery.{GraphSnapshot}
use ros2_mcp_server.Capabilities.Registry.{empty}
use ros2_mcp_server.Discovery.Snapshot.{NodeGraph, RosGraph, collect_graph_snapshot}
use ros2_mcp_server.Discovery.Reported.{lists_publisher, reports, collect-publishers}
use ros2_mcp_server.Discovery.Engine.{
  Equality, Discovery, no_snapshot, refresh_from_current_snapshot, poll_loop,
}
use ros2_mcp_server.Discovery.UpToDate.{IsSound, IsUpToDate, poll_loop-IsUpToDate_from}
use ros2_mcp_server.Scenarios.Data.{m, safety_config}

abbrev base : NodeGraph
base = record {
  name = "base";
  namespace = "/robot/";
  publishers = ("/odom", "nav_msgs/msg/Odometry" ∷ []) ∷ ("/scan", []) ∷ [];
  subscribers = ("/cmd_vel", "geometry_msgs/msg/Twist" ∷ []) ∷ [];
  services = [];
  clients = [];
  action_servers = raised (runtime_error "no answer");
}

abbrev teleop : NodeGraph
teleop = record {
  name = "teleop";
  namespace = "/";
  publishers = ("/cmd_vel", "geometry_msgs/msg/Twist" ∷ []) ∷ [];
  subscribers = ("/odom", "nav_msgs/msg/Odometry" ∷ []) ∷ [];
  services = [];
  clients = [];
  action_servers = ok [];
}

abbrev graph : RosGraph ℤ
graph = record {
  nodes = base ∷ teleop ∷ [];
  qos_profiles = λ _. [];
  actions = ok [];
  frames = ok (("base_link", some "odom") ∷ ("odom", none) ∷ []);
  now = m 1;
}

teleop_publishes :
    lists_publisher "/cmd_vel" "/teleop" (collect_graph_snapshot graph 0).topics ≡ true
unfolding collect_graph_snapshot ros2_mcp_server.Discovery.Snapshot.visit_all
    ros2_mcp_server.Discovery.Snapshot.visit ros2_mcp_server.Base.get ros2_mcp_server.Base.put
teleop_publishes = refl

collect-publishers_example :
    lists_publisher "/odom" "/robot/base" (collect_graph_snapshot graph 0).topics
    ≡ any (reports "/odom" "/robot/base") (base ∷ teleop ∷ [])
collect-publishers_example = collect-publishers graph 0 "/odom" "/robot/base"

-- Two lists that are empty are equal; other lists are taken as different.
abbrev both_empty : {A : Type 0} → List A → List A → Bool
both_empty [] [] = true
both_empty _ _ = false

both_empty_sound : {A : Type 0} (a b : List A) → both_empty a b ≡ true → a ≡ b
both_empty_sound [] [] h = refl
both_empty_sound [] (y ∷ ys) h = absurd (cc)
both_empty_sound (x ∷ xs) [] h = absurd (cc)
both_empty_sound (x ∷ xs) (y ∷ ys) h = absurd (cc)

abbrev equality : Equality ℤ
equality = record {
  same_nodes = both_empty;
  same_topics = both_empty;
  same_services = both_empty;
  same_actions = both_empty;
  same_frames = both_empty;
  same_entries = both_empty;
}

equality-IsSound : IsSound equality
equality-IsSound = record {
  nodes = both_empty_sound _ _;
  topics = both_empty_sound _ _;
  services = both_empty_sound _ _;
  actions = both_empty_sound _ _;
  frames = both_empty_sound _ _;
  entries = both_empty_sound _ _;
}

abbrev capability_config : CapabilityConfig
capability_config = record {
  motion = record {
    enabled = true;
    backend = "cmd_vel";
    cmd_vel_topic = "/cmd_vel";
    odom_topic = "/odom";
  };
  navigation = record { enabled = true; backend = "nav2"; action_name = "navigate_to_pose" };
  lidar = record { topic = "/scan" };
  camera = record { image_topic = "/image"; info_topic = "/info" };
  object_detection = record { backend = "stub" };
}

abbrev fresh : Discovery ℤ
fresh = record { latest = no_snapshot (m 0); registry = empty }

abbrev polled : List (Option (GraphSnapshot ℤ))
polled = some (no_snapshot (m 1)) ∷ none ∷ some (collect_graph_snapshot graph 1) ∷ []

poll_loop-IsUpToDate_from_example : IsUpToDate safety_config capability_config (
    poll_loop equality safety_config capability_config polled
      (refresh_from_current_snapshot equality safety_config capability_config fresh))
poll_loop-IsUpToDate_from_example =
    poll_loop-IsUpToDate_from equality equality-IsSound safety_config capability_config polled fresh
