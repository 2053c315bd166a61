-- ===== src/Subscriptions.antt =====
-- src/ros_mcp/subscriptions.
pub mod Pool
pub mod Once
