-- ===== src/Build.antt =====
-- The constructors of the nodes (src/GroupNode.cxx, src/LaunchNode.cxx, src/SequenceNode.cxx,
-- src/ExecutableNode.cxx, src/ScriptNode.cxx, src/SocketNode.cxx) and `construct` of
-- include/NodeContext.hxx, tied with `execute`: the nodes of a whole launch file are made.
pub mod Found
pub mod Groups
pub mod Kept
pub mod Library
pub mod Made
pub mod Names
pub mod Places
pub mod Trees
use arclaunch.Prelude.{
  ℕ, zero, suc, Option, none, some, List, [], Exec, Outcome, done, thrown, exited, undefined,
  no_fuel, ◌>>=◌, ◌>>◌, pure, if◌then◌else◌,
}
use arclaunch.NameMap.{NameMap}
use arclaunch.Element.{
  Element, Elements, Linkage, Externalize, executable, script, launch, sequence_node, socket_node,
}
use arclaunch.Command
use arclaunch.World.{Derived, set_derived, modify}
use arclaunch.Context.{
  NodeStorage, executable_node, script_node, launch_node, sequence, socket, casts, Site, Construct,
  execute, group_nodes, sequence_order,
}
use arclaunch.Socket
use arclaunch.Os.{Net}
use arclaunch.Memory.{Memory, on_world, new_node, idle_program, idle_launch, idle_sequence}

module _ {K : Type 0} where
  abbrev pub put_node : ℕ → Derived → Exec (Site (Memory K)) (Unit {0})
  put_node p d = on_world (modify (set_derived p d))

  -- The constructor of LaunchNode, on the memory `p`.
  unfoldable pub make_launch :
      (Element → Exec (Site (Memory K)) ℕ)
      → ℕ
      → Elements
      → List Linkage
      → List Externalize
      → Exec (Site (Memory K)) (Unit {0})
  unfolding group_nodes
  make_launch execute p es links externals = do
    nodes ← group_nodes execute es []
    put_node p (idle_launch nodes links externals)

  -- The constructor of SequenceNode.
  unfoldable pub make_sequence :
      (Element → Exec (Site (Memory K)) ℕ) → ℕ → Elements → Exec (Site (Memory K)) (Unit {0})
  unfolding group_nodes sequence_order
  make_sequence execute p es = do
    nodes ← group_nodes execute es []
    put_node p (idle_sequence nodes (sequence_order es))

  module _ (net : Net K) where
    -- The constructor of the storage's class. What the constructors of a script or a socket node do
    -- to an attribute that is missing, or without an address, is theirs.
    unfoldable pub make :
        (Element → Exec (Site (Memory K)) ℕ)
        → NodeStorage
        → ℕ
        → Element
        → Exec (Site (Memory K)) (Unit {0})
    unfolding make_launch make_sequence Command.executable_node Command.script_node
        Socket.socket_node
    make execute executable_node p (executable name x) =
        put_node p (idle_program (Command.executable_node x))
    make execute executable_node p (script name x) =
        put_node p (idle_program (Command.executable_node x.base))
    make execute script_node p (script name x) = elim (Command.script_node x) [
      | none ↦ (λ s. undefined)
      | some command ↦ put_node p (idle_program command)
    ]
    make execute launch_node p (launch name es links externals) =
        make_launch execute p es links externals
    make execute launch_node p (socket_node name es links externals sockets service address) =
        make_launch execute p es links externals
    make execute sequence p (sequence_node name es repeats) = make_sequence execute p es
    make execute socket p (socket_node name es links externals sockets service address) = do
      make_launch execute p es links externals
      on_world (Socket.socket_node net p sockets service address)
    make execute _ p _ = λ s. undefined

    -- `construct` of a storage; `depth` bounds the nesting of the elements.
    unfoldable pub construct : ℕ → Construct (Memory K)
    unfolding casts new_node make execute
    construct zero c e s = no_fuel
    construct (suc depth) c e s =
        if casts c e
        then ((do node ← new_node; make (execute (construct depth)) c node e; pure (some node)) s)
        else done none s
