-- ===== src/Execution/Manager/Events.antt =====
-- Histories of `DefaultExecutionManager`: its calls and wake-ups in the order in which the loop runs
-- them, from the manager of `__init__`.
use ros2_mcp_server.Base.{ℕ, String, List, [], ◌∷◌, none}
use ros2_mcp_server.Number.{Number}
use ros2_mcp_server.Contracts.Core.{SemanticCommand}
use ros2_mcp_server.Execution.Manager.Handlers.{Manager, World}
use ros2_mcp_server.Execution.Manager.Steps.{Wake, submit, wake_task, settle, cancel, on_progress}

pub data Event (R : Type 0) : Type 0 where
  submits : SemanticCommand R → R → Event R
  wakes : World R → ℕ → Wake R → Event R
  settles : ℕ → Event R
  cancels : String → Event R
  subscribes : String → ℕ → Event R

module _ {R : Type 0} ⦃n : Number R⦄ where
  unfoldable pub step : Manager R → Event R → Manager R
  step m (submits c start) = (submit c start m).0
  step m (wakes w i wake) = wake_task w i wake m
  step m (settles i) = settle i m
  step m (cancels command_id) = (cancel command_id m).0
  step m (subscribes command_id callback) = on_progress command_id callback m

  unfoldable pub run : Manager R → List (Event R) → Manager R
  run m [] = m
  run m (e ∷ es) = run (step m e) es

module _ {R : Type 0} where
  abbrev pub init : Manager R
  init = record {
    tasks = λ _. none;
    next = 0;
    in_flight = [];
    tokens = [];
    active_commands = [];
    progress_callbacks = [];
    safety = record { rate_limit_history = [] };
  }
