-- ===== src/Navigation/Voyages.antt =====
-- src/ros_mcp/adapters/navigation/nav2_plugin.py: `navigate` over a history of awaits. What the plugin
-- keeps as the active handle at each is part of the history, since other tasks write it.
use ros2_mcp_server.Base.{ℕ, zero, suc, List, ◌++◌, Option}
use ros2_mcp_server.Number.{Number}
use ros2_mcp_server.Contracts.Core.{SemanticCommand, NavigateTarget}
use ros2_mcp_server.Navigation.{Plugin, Instant}
use ros2_mcp_server.Navigation.Goal.{Stage, Request, Answer, Voyage, voyage, begin, step}

pub record Await (R : Type 0) : Type 0 where
  pub answer : Answer R
  pub instant : Instant R
  pub active_goal_handle : Option ℕ

pub record Sailing (R : Type 0) : Type 0 where
  pub asked : List (Request R)  -- the latest first
  pub stage : Stage R

module _ {R : Type 0} ⦃n : Number R⦄ (p : Plugin) where
  abbrev pub sail_on : Voyage R → Await R → Sailing R → Sailing R
  sail_on v a s =
      let t = step p v a.answer a.instant a.active_goal_handle s.stage in
      record { asked = t.requests ++ s.asked; stage = t.stage }

  module _ (command : SemanticCommand R) (target : NavigateTarget R) where
    module _ (start : Instant R) (active : Option ℕ) (awaits : ℕ → Await R) where
      -- `navigate` after `k` awaits.
      unfoldable pub sail : ℕ → Sailing R
      sail zero =
          let t = begin (voyage command target start) active start in
          record { asked = t.requests; stage = t.stage }
      sail (suc k) = sail_on (voyage command target start) (awaits k) (sail k)
