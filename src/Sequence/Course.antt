-- ===== src/Sequence/Course.antt =====
-- An instance of a SequenceNode: how it is found, and that it is gone.
use arclaunch.Prelude.{ℕ, ◌≡◌, none, some, List, done, arith}
use arclaunch.Prelude.Map.{Map, IsMap, lookup}
use arclaunch.Text.{Text}
use arclaunch.NameMap.{NameMap}
use arclaunch.Sequence.{the_running}
use arclaunch.World.{World, SequenceNode, RunningSequence, sequence_node}

module _ {K : Type 0} where
  -- The instance `i` of the sequence node `p`, with its nodes and their order, runs as `r`.
  pub record Runs (w : World K) (p i : ℕ) (nodes : NameMap) (order : List Text)
      (r : RunningSequence) : Type 0 where
    pub sequences : Map RunningSequence
    pub derived :
        w.derived p
        ≡ some (sequence_node (record { nodes = nodes; sequences = sequences; order = order }))
    pub is_map : IsMap sequences
    pub found : lookup i sequences ≡ some r

  pub the_running_lem :
      (w : World K) (p i : ℕ) (nodes : NameMap) (order : List Text) (r : RunningSequence)
      → Runs w p i nodes order r
      → the_running p i w ≡ done r w
  unfolding the_running
  the_running_lem w p i nodes order r h = ground (arith, h.derived, h.found)

  -- The instance is gone.
  pub record Ended (w : World K) (p i : ℕ) : Type 0 where
    pub node : SequenceNode
    pub derived : w.derived p ≡ some (sequence_node node)
    pub gone : lookup i node.sequences ≡ none
