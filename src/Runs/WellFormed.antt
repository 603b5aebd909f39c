-- ===== src/Runs/WellFormed.antt =====
-- The maps of all objects are ascending, and each process in `running_nodes` is known to the program
-- node that it belongs to.
pub mod Kept
use arclaunch.Prelude.{
  ℕ, ◌≡◌, ◌≢◌, refl, sym, ◌∙◌, ap, subst, Bool, true, false, Option, none, some, List, ◌++◌, [],
  ◌∷◌, arith, ◌==◌, if◌then◌else◌, ◌⊎◌, inl, inr, Bool-cases,
}
use arclaunch.Prelude.Map.{
  Map, IsMap, lookup, insert, erase, lookup-insert, lookup-erase, insert-From, erase-From,
}
use arclaunch.Node.{Node, CompletionHandler}
use arclaunch.Node.Instances.{begin_instance, add_instance_completion_handler}
use arclaunch.World.{
  World, Call, Process, LaunchNode, LaunchInstance, SequenceNode, RunningSequence, Derived,
  executable, launch, sequence_node, process_of, launch_of, sequence_of, at, set_base, set_derived,
}
use arclaunch.Process.{or_zero}
use arclaunch.Runs.Closed.{IsLaunch}
use arclaunch.Runs.Plain.{IsSequence, Plain}

-- The process `pid` is one of the node `n`, for some instance.
abbrev pub Registered : {K : Type 0} → World K → ℕ → ℕ → Type 0
Registered w pid n =
    (x : Process) × (inst : ℕ) × (process_of (w.derived n) ≡ some x)
    × (lookup pid x.pid_instance ≡ some inst)

pub record IsWellFormed {K : Type 0} (w : World K) : Type 0 where
  pub instances : (p : ℕ) → IsMap (w.base p).instances
  pub fd_maps : (p : ℕ) → IsMap (w.base p).fd_map
  pub running_nodes : IsMap w.running_nodes
  pub processes : (p : ℕ) (x : Process) → process_of (w.derived p) ≡ some x → IsMap x.pid_instance
  pub launches : (p : ℕ) (l : LaunchNode) → launch_of (w.derived p) ≡ some l → IsLaunch l
  pub sequences : (p : ℕ) (s : SequenceNode) → sequence_of (w.derived p) ≡ some s → IsSequence s
  pub registered : (pid n : ℕ) → lookup pid w.running_nodes ≡ some n → Registered w pid n
