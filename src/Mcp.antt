-- ===== src/Mcp.antt =====
-- src/ros_mcp/mcp: the tools and the handling of a call.
pub mod Schemas
pub mod Provider
pub mod Calls
pub mod Offered
