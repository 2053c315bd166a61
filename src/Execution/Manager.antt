-- ===== src/Execution/Manager.antt =====
-- src/ros_mcp/execution/manager.py: `DefaultExecutionManager`, on the one asyncio loop.
-- A call of `submit` that starts a command makes a task. A task runs from one `await` to the next in
-- one step, and what the awaited call gave is the event that takes it on; between two steps of a task
-- the others run. The manager's dictionaries hold references to tasks, as the source's hold
-- references to the future, the token and the command of one call.
-- Python's cancellation of a waiting task by the transport is not modelled.
pub mod Handlers
pub mod Steps
pub mod Events
pub mod Invariant
pub mod Frame
pub mod Framed
pub mod Permitted
pub mod NonBypass
pub mod Finality
pub mod SingleFlight
pub mod Stop
pub mod Preserved
pub mod Motion
pub mod Reachable
