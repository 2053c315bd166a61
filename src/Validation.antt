-- ===== src/Validation.antt =====
-- src/ros_mcp/validation: the JSON schema subset (schema_check.py) and the engine (engine.py).
pub mod Schema
pub mod Engine
pub mod Conforms
