-- ===== src/Execution.antt =====
-- src/ros_mcp/execution: from an accepted command to its result.
pub mod ErrorResults
pub mod Planner
pub mod Manager
