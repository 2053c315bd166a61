-- ===== src/Capabilities.antt =====
-- src/ros_mcp/capabilities.
pub mod Registry
pub mod Ontology
pub mod Inference
pub mod Grounded
pub mod MotionGrounded
pub mod Inferred
