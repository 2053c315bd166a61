-- ===== src/Contracts.antt =====
-- src/ros_mcp/contracts: the data that the components exchange.
pub mod Core
pub mod Results
pub mod Config
pub mod Discovery
