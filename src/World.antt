-- ===== src/World.antt =====
-- The state of the running library: the kernel, the node objects, and the static members of
-- ExecutableNode. A node's address is a number; what class Node keeps stands in `base`, what the
-- derived class adds in `derived`.
pub mod Frame
use arclaunch.Prelude.{
  ℕ, ℤ, Bool, Option, none, some, List, Exec, done, thrown, exited, undefined, no_fuel, ◌==◌,
  if◌then◌else◌,
}
use arclaunch.Prelude.Map.{Map}
use arclaunch.Text.{Text}
use arclaunch.NameMap.{NameMap}
use arclaunch.Element.{Linkage, Externalize}
use arclaunch.Command.{ExecutableNode}
use arclaunch.Node.{Node, CompletionHandler}
use arclaunch.Node.Fds.{Local}

-- LaunchNode::LaunchInstance. The nodes started for it, each with the number of its instance.
pub record LaunchInstance : Type 0 where
  pub owner : ℕ
  pub inst_num : ℕ
  pub node_instances : Map ℕ

pub record LaunchNode : Type 0 where
  pub nodes : NameMap
  pub instances : Map LaunchInstance
  pub links : List Linkage
  pub externals : List Externalize

-- SequenceNode::RunningSequence, a Node that only holds descriptors. A field that a constructor
-- does not set is `none`.
pub record RunningSequence : Type 0 where
  pub node : Node
  pub owner : ℕ
  pub inst_num : Option ℕ
  pub current_node : Option ℕ
  pub current_stage_inst_num : Option ℕ
  pub stage : ℤ

pub record SequenceNode : Type 0 where
  pub nodes : NameMap
  pub sequences : Map RunningSequence
  pub order : List Text

-- ExecutableNode, with the map from its processes to its instances.
pub record Process : Type 0 where
  pub command : ExecutableNode
  pub pid_instance : Map ℕ

pub data Derived : Type 0 where
  executable : Process → Derived
  launch : LaunchNode → Derived
  sequence_node : SequenceNode → Derived

-- What SocketNode adds to LaunchNode. A descriptor is `none` where `socket` has failed with -1, an
-- address of the list `res` is a number, and `acc_thread` says that a thread has not been joined.
pub record SocketNode : Type 0 where
  pub fds : List (Option ℕ)
  pub maxfd : ℕ
  pub seq : List Linkage
  pub res : List ℕ
  pub keep : Bool
  pub acc_thread : Bool
  pub acc_inst : Option ℕ

-- A call of a user's completion handler: its tag and the arguments.
pub record Call : Type 0 where
  pub tag : ℕ
  pub retval : ℕ
  pub node : ℕ
  pub inst : ℕ

pub record World (K : Type 0) : Type 0 where
  pub kernel : K
  pub base : ℕ → Node
  pub derived : ℕ → Option Derived
  pub sockets : ℕ → Option SocketNode
  pub reaping : Bool
  pub running_nodes : Map ℕ
  pub calls : List Call

abbrev pub at {ℓ} : {A : Type ℓ} → (ℕ → A) → ℕ → A → ℕ → A
at f p a q = if p == q then a else f q

abbrev pub launch_of : Option Derived → Option LaunchNode
launch_of (some (launch l)) = some l
launch_of _ = none

abbrev pub sequence_of : Option Derived → Option SequenceNode
sequence_of (some (sequence_node s)) = some s
sequence_of _ = none

abbrev pub process_of : Option Derived → Option Process
process_of (some (executable p)) = some p
process_of _ = none

module _ {K : Type 0} where
  abbrev pub set_base : ℕ → Node → World K → World K
  set_base p n w = record w { base = at w.base p n }

  abbrev pub set_derived : ℕ → Derived → World K → World K
  set_derived p d w = record w { derived = at w.derived p (some d) }

  -- A method that sees its own node and the kernel.
  abbrev pub on_node : {A : Type 0} → ℕ → Exec (Local K) A → Exec (World K) A
  on_node p m w = elim (m (record { node = w.base p; kernel = w.kernel })) [
    | done a l ↦ done a (record w { base = at w.base p l.node; kernel = l.kernel })
    | thrown e l ↦ thrown e (record w { base = at w.base p l.node; kernel = l.kernel })
    | exited c l ↦ exited c (record w { base = at w.base p l.node; kernel = l.kernel })
    | undefined ↦ undefined
    | no_fuel ↦ no_fuel
  ]

  -- To follow a pointer to what is not there is undefined.
  abbrev pub deref : {A : Type 0} → (World K → Option A) → Exec (World K) A
  deref f w = elim (f w) [ none ↦ undefined | some a ↦ done a w ]

  abbrev pub modify : (World K → World K) → Exec (World K) (Unit {0})
  modify f w = done tt (f w)

-- A callback, with the return value, the node and the instance.
abbrev pub Callback : Type 0 → Type 0
Callback K = CompletionHandler → ℕ → ℕ → ℕ → Exec (World K) (Unit {0})
