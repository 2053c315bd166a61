-- ===== src/Motion/Run.antt =====
-- src/ros_mcp/adapters/motion/cmd_vel_plugin.py: `move` over a history of instants, one for the code
-- before the loop and one for each iteration.
use ros2_mcp_server.Base.{ℕ, zero, suc, List, [], ◌∷◌}
use ros2_mcp_server.Number.{Number}
use ros2_mcp_server.Contracts.Core.{SemanticCommand}
use ros2_mcp_server.Motion.{Twist, Plugin, Instant}
use ros2_mcp_server.Motion.Plan.{Next, moving, Ticked, quiet}
use ros2_mcp_server.Motion.Control.{begin, tick}

-- A velocity and the number of the instant at which it was published.
pub record Sent (R : Type 0) : Type 0 where
  pub instant_index : ℕ
  pub twist : Twist R

pub record Moved (R : Type 0) : Type 0 where
  pub published : List (Sent R)  -- the latest first
  pub next : Next R

module _ {R : Type 0} where
  abbrev pub log : ℕ → List (Twist R) → List (Sent R) → List (Sent R)
  log k [] sent = sent
  log k (w ∷ ws) sent = log k ws (record { instant_index = k; twist = w } ∷ sent)

  abbrev pub append : ℕ → List (Sent R) → Ticked R → Moved R
  append k sent t = record { published = log k t.twists sent; next = t.next }

module _ {R V M : Type 0} ⦃n : Number R⦄ where
  module _ (turns : ℕ) (p : Plugin R M) where
    abbrev pub proceed : Instant R V M → Next R → Ticked R
    proceed i (moving plan d) = tick turns p plan i d
    proceed i next = quiet next

    module _ (instants : ℕ → Instant R V M) (command : SemanticCommand R) where
      -- `move` up to the instant `k`.
      unfoldable pub move : ℕ → Moved R
      move zero = append 0 [] (begin turns p command (instants 0))
      move (suc k) =
          let before = move k in
          append (suc k) before.published (proceed (instants (suc k)) before.next)
