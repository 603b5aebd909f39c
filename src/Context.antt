-- ===== src/Context.antt =====
-- src/NodeContext.cxx, include/NodeContext.hxx and include/arclaunch.hxx.in: which class of node is
-- made for an element; and the constructor of src/GroupNode.cxx, which makes the members of a group.
-- What the storages construct is a parameter here; Build ties it.
pub mod Classes
pub mod Group
use arclaunch.Prelude.{
  ℕ, Bool, true, false, Option, none, some, List, [], ◌∷◌, ◌++◌, Exec, Outcome, done, undefined,
  thrown, exited, no_fuel, ◌>>=◌, ◌>>◌, pure,
}
use mathlib.Core.List.{reverse}
use arclaunch.Text.{Text}
use arclaunch.NameMap.{NameMap, insert_name}
use arclaunch.Element.{
  Element, Elements, plain, file, executable, script, group, launch, sequence_node, socket_node,
  nil, cons,
}

-- A NodeStorage, by the class of the nodes that it keeps.
pub data NodeStorage : Type 0 where
  executable_node script_node launch_node sequence socket : NodeStorage

-- The dynamic_cast of `construct`: whether the element is of the storage's type or extends it.
unfoldable pub casts : NodeStorage → Element → Bool
casts executable_node (executable name x) = true
casts executable_node (script name x) = true
casts executable_node _ = false
casts script_node (script name x) = true
casts script_node _ = false
casts launch_node (launch name es links externals) = true
casts launch_node (socket_node name es links externals sockets service address) = true
casts launch_node _ = false
casts sequence (sequence_node name es repeats) = true
casts sequence _ = false
casts socket (socket_node name es links externals sockets service address) = true
casts socket _ = false

pub record NodeContext : Type 0 where
  pub storages : List NodeStorage
  pub nodes : List ℕ

unfoldable pub recognize : NodeStorage → NodeContext → NodeContext
recognize s c = record c { storages = c.storages ++ s ∷ [] }

-- The function `context`.
unfoldable pub context : NodeContext
unfolding recognize
context = recognize socket (
    recognize sequence (
      recognize launch_node
        (recognize script_node (recognize executable_node (record { storages = []; nodes = [] })))))

-- A context with the world in which its nodes live.
pub record Site (W : Type 0) : Type 0 where
  pub context : NodeContext
  pub world : W

-- What `construct` of a storage yields for an element: a node, or NULL.
abbrev pub Construct : Type 0 → Type 0
Construct W = NodeStorage → Element → Exec (Site W) (Option ℕ)

module _ {W : Type 0} where
  -- The loop of `execute`, over the storages that are left. With none left it returns a null
  -- reference, or one that was never set.
  unfoldable pub execute_loop : Construct W → Element → List NodeStorage → Exec (Site W) ℕ
  execute_loop construct elem [] s = undefined
  execute_loop construct elem (c ∷ cs) s = elim (construct c elem s) [
    | done (some node) t ↦
        done node (record t { context = record t.context { nodes = t.context.nodes ++ node ∷ [] } })
    | done none t ↦ execute_loop construct elem cs t
    | thrown e t ↦ thrown e t
    | exited code t ↦ exited code t
    | undefined ↦ undefined
    | no_fuel ↦ no_fuel
  ]

  unfoldable pub execute : Construct W → Element → Exec (Site W) ℕ
  execute construct elem s = execute_loop construct elem (reverse s.context.storages) s

unfoldable pub name_of : Element → Text
name_of (plain name) = name
name_of (file name ps) = name
name_of (executable name x) = name
name_of (script name x) = name
name_of (group name es) = name
name_of (launch name es links externals) = name
name_of (sequence_node name es repeats) = name
name_of (socket_node name es links externals sockets service address) = name

module _ {S : Type 0} where
  -- The loop of the GroupNode constructor.
  unfoldable pub group_nodes : (Element → Exec S ℕ) → Elements → NameMap → Exec S NameMap
  group_nodes execute nil nodes = pure nodes
  group_nodes execute (cons e es) nodes = do
    node ← execute e
    group_nodes execute es (insert_name (name_of e) node nodes)

-- The loop of the SequenceNode constructor.
unfoldable pub sequence_order : Elements → List Text
unfolding name_of
sequence_order nil = []
sequence_order (cons e es) = name_of e ∷ sequence_order es
