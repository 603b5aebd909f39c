-- ===== src/Node.antt =====
-- The class Node of include/Node.hxx and src/Node.cxx: its private state.
pub mod Fds
pub mod Instances
use arclaunch.Prelude.{ℕ, List}
use arclaunch.Prelude.Map.{Map}

-- A callback with its data. `external` is a function of the library's user, told apart by a tag;
-- `sub_node_death` is LaunchNode::onSubNodeDeath on the LaunchInstance that `owner` keeps under
-- `inst`; `proceed` is RunningSequence::proceed on the RunningSequence that `owner` keeps so.
pub data CompletionHandler : Type 0 where
  external : ℕ → CompletionHandler
  sub_node_death : (owner inst : ℕ) → CompletionHandler
  proceed : (owner inst : ℕ) → CompletionHandler

pub record Node : Type 0 where
  pub fd_map : Map ℕ
  pub on_death : List CompletionHandler
  pub on_instance_death : List CompletionHandler
  pub instances : Map (List CompletionHandler)
