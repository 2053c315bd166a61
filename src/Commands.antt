-- ===== src/Commands.antt =====
-- src/ros_mcp/commands: how a tool call becomes a SemanticCommand.
pub mod Factory
pub mod Ulid
pub mod Validated
pub mod Timeout
