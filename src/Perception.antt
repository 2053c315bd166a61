-- ===== src/Perception.antt =====
-- src/ros_mcp/perception.
pub mod Bearing
pub mod Correlated
pub mod LaserScan
pub mod Nearest
