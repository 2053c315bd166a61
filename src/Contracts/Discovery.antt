-- ===== src/Contracts/Discovery.antt =====
-- src/ros_mcp/contracts/discovery.py and `CapabilityEntry` of capabilities.py.
use ros2_mcp_server.Base.{ℕ, String, Option, List, Dict}
use ros2_mcp_server.Json.{Fields}
use ros2_mcp_server.Contracts.Core.{Confidence}

pub record TopicInfo (R : Type 0) : Type 0 where
  pub name : String
  pub type_name : String
  pub publishers : List String
  pub subscribers : List String
  pub qos_profiles : List (Fields R)
  pub measured_hz : Option R
  pub last_stamp : Option R
  pub frame_id : Option String

pub record ServiceInfo : Type 0 where
  pub name : String
  pub type_name : String

pub record ActionInfo : Type 0 where
  pub name : String
  pub type_name : String

pub record NodeInfo : Type 0 where
  pub name : String
  pub namespace : String
  pub publishers : List String
  pub subscribers : List String
  pub services : List String
  pub clients : List String
  pub actions : List String

pub record GraphSnapshot (R : Type 0) : Type 0 where
  pub snapshot_version : ℕ
  pub taken_at : R
  pub nodes : List NodeInfo
  pub topics : List (TopicInfo R)
  pub services : List ServiceInfo
  pub actions : List ActionInfo
  pub tf_frames : List String

pub record CapabilityEntry (R : Type 0) : Type 0 where
  pub capability_id : String
  pub confidence : Confidence
  pub backend_id : Option String
  pub resolved_topics : Dict String
  pub limits : Dict R
