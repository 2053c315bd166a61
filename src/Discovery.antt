-- ===== src/Discovery.antt =====
-- src/ros_mcp/discovery and src/ros_mcp/capabilities/coordinator.py: from the ROS graph to the registry
-- of capabilities. Snapshot has the walk of the graph, Engine the polls and the coordinator.
pub mod Snapshot
pub mod Engine
pub mod UpToDate
pub mod Reported
