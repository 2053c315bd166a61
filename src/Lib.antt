-- ===== src/Lib.antt =====
-- ROS-MCP-Server: a server that offers a ROS 2 robot to a language model as eight tools (MCP). A tool
-- call is validated, becomes a semantic command, passes the safety policy engine, and is carried out by
-- a backend under the execution manager. This library models the part of the program (Python, under
-- src/ros_mcp) that decides which commands reach the robot and what becomes of them.
--
-- The parts and their files (source paths are from the root of the repository):
--   src/ros_mcp/contracts/{core,errors,safety,results,discovery,config}.py
--       Contracts: records for dataclasses and models, data types for enums and unions.
--   src/ros_mcp/geometry.py
--       Geometry: distances, quaternions and `project_translation`; Geometry/Angle: `normalize_angle`.
--   src/ros_mcp/safety/policy_engine.py
--       Safety: `check` with its rate limit (the engine's history is passed on), distance limits,
--       geofence and approval policy. Safety/Safe: what a safe move and a safe goal are, apart from the
--       code; Safety/Decision, Safety/Endpoint, Safety/Permission and Safety/RateLimit: proofs.
--   src/ros_mcp/validation/{schema_check,engine}.py and mcp/schemas.py
--       Validation/Schema (`_check`), Validation/Engine (`validate`), Mcp/Schemas (the tools).
--       Validation/Conforms: what a schema accepts, read off the checker.
--   src/ros_mcp/mcp/tool_provider.py
--       Mcp/Provider: `current_tools` and `handle_call` up to the call of `submit`.
--   src/ros_mcp/commands/factory.py
--       Commands/Factory (`create`); Commands/Validated: what it builds of accepted arguments;
--       Commands/Timeout: the bounds of its timeout.
--   src/ros_mcp/commands/ulid.py
--       Commands/Ulid (`new_ulid`); Commands/Ulid/Decoded: how it is read back.
--   src/ros_mcp/capabilities/{registry,ontology,inference}.py
--       Capabilities/Registry, Capabilities/Ontology (one function per capability) and
--       Capabilities/Inference (`infer`).
--   src/ros_mcp/discovery/{snapshot,engine}.py and capabilities/coordinator.py
--       Discovery/Snapshot (`collect_graph_snapshot`) and Discovery/Engine (the polls, and the callback
--       that brings a changed snapshot to the registry). Discovery/Reported and Discovery/UpToDate: proofs.
--   src/ros_mcp/perception/laser_scan.py
--       Perception/LaserScan (`analyze_laser_scan`); Perception/Nearest: proofs.
--   src/ros_mcp/perception/detection_geometry.py
--       Perception/Bearing (`estimate_bearing_rad`, `correlate_distance`); Perception/Correlated: proofs.
--   src/ros_mcp/subscriptions/manager.py
--       Subscriptions/Pool: the claims, the cache and the events; Subscriptions/Once: proofs.
--   src/ros_mcp/execution/{planner,error_results,cancellation,manager}.py
--       Execution/Planner, Execution/ErrorResults and Execution/Manager. A task of the manager runs
--       from one `await` to the next in one step: Manager/Handlers has the stretches of `_execute`,
--       `_execute_read` and `_handle_stop`, Manager/Steps those of `_execute_motion`, `submit`,
--       `cancel` and the progress callbacks, and Manager/Events the histories of all of them in the
--       order in which the one asyncio loop runs them. The other files of the folder are proofs.
--       A task has its own copy of its command, which the source shares with the caller: a command that
--       is submitted again after it has settled is a new one here. No caller does that.
--
--   src/ros_mcp/adapters/motion/cmd_vel_plugin.py
--       Motion (the readers and the clamps), Motion/Plan (what `move` fixes and the variables of its
--       loop), Motion/Control (`move` up to the loop, the loop's body, `stop`) and Motion/Run (`move` over
--       a history of instants). Motion/Steps and Motion/Planned state the ways through the code as step
--       relations, Motion/Invariant is the induction over the instants; the other files are proofs.
--   src/ros_mcp/adapters/navigation/nav2_plugin.py
--       Navigation, Navigation/Goal (`navigate` from await to await, `cancel_all`) and Navigation/Voyages
--       (over a history of answers). Navigation/Life has the abstract protocol of a goal; it,
--       Navigation/Arrival and Navigation/Progress are proofs.
--   src/ros_mcp/robot_state.py and mcp/{state_resolver,laser_scan_resolver,capabilities_resolver,
--   read_handlers}.py
--       Reading (the resolvers) and Reading/Handlers; Reading/Answered: proofs.
--   src/ros_mcp/adapters/perception/perception_adapter.py
--       Reading/Detection (`detect_objects`); Reading/Detected and Reading/Sighted: proofs.
--
-- Base, Number and Json are shared: tests, lists, dictionaries in the order of insertion, exceptions
-- as values, Python's numbers and JSON-like values. Scenarios holds test data, tests and the theorems
-- at concrete inputs.
--
-- Numbers: Python's `int` and `float` are a type R with the operations that the program uses
-- (Number.Number), a parameter of the development: floats are not given a definition and no law of
-- their arithmetic is assumed. What a theorem needs of the order it takes as Number.IsOrdered or
-- Number.IsTransitive, and what it needs of rounding as Number.IsRounded, laws that hold of IEEE numbers, NaN and infinity included.
-- Number/Fixed is an instance with thousandths for concrete runs. The clock, the fresh command id, the
-- configuration and the other components' answers are arguments of the step that reads them. The text
-- of an error is kept as its pieces, since how Python prints a number is not modelled.
--
-- Loops are structural, but for two. The loops of `normalize_angle`, which are those of `_angular_delta`
-- too, run on fuel, a number of turns, since on floats they need not end (a large angle less a turn can
-- be that angle); a move whose fuel runs out is at the stage `spinning`, never at a result. With headings
-- between -pi and pi, and angles up to 360 degrees, three turns are enough. The control loop of a move and the polling of a goal are given up to
-- any number of instants, so that what is said of them is said of every prefix of a run.
--
-- Not modelled: the camera's images, the detector and the lookup in the TF buffer (what they answer is
-- an argument of `detect_objects`), the message codec, the configuration's file reader, resources and
-- serialization, the plugins' loader, logging, the server's construction and the ROS bridge, the
-- watchdog of cmd_vel and the e-stop (which the code does not have), and cancellation of a waiting task
-- by the transport.
pub mod Base
pub mod Navigation
pub mod Number
pub mod Json
pub mod Contracts
pub mod Geometry
pub mod Reading
pub mod Safety
pub mod Validation
pub mod Mcp
pub mod Motion
pub mod Commands
pub mod Capabilities
pub mod Discovery
pub mod Execution
pub mod Perception
pub mod Subscriptions
pub mod Scenarios
