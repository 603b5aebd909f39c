-- ===== src/Memory.antt =====
-- Where the node objects live: the lists of src/include/NodeContext.hxx, which a node is put into by
-- emplace_back and never leaves. Addresses are given out in order.
use arclaunch.Prelude.{ℕ, suc, [], List, Exec, done, thrown, exited, undefined, no_fuel}
use arclaunch.Text.{Text}
use arclaunch.NameMap.{NameMap}
use arclaunch.Element.{Linkage, Externalize}
use arclaunch.Command.{ExecutableNode}
use arclaunch.Sequence.{empty_node}
use arclaunch.World.{World, Derived, executable, launch, sequence_node, set_base}
use arclaunch.Context.{Site}

-- The objects, and the address of the next one.
pub record Memory (K : Type 0) : Type 0 where
  pub world : World K
  pub next : ℕ

module _ {K : Type 0} where
  -- What a constructor does to the objects.
  abbrev pub on_world : {A : Type 0} → Exec (World K) A → Exec (Site (Memory K)) A
  on_world m s = elim (m s.world.world) [
    | done a w ↦ done a (record s { world = record s.world { world = w } })
    | thrown e w ↦ thrown e (record s { world = record s.world { world = w } })
    | exited c w ↦ exited c (record s { world = record s.world { world = w } })
    | undefined ↦ undefined
    | no_fuel ↦ no_fuel
  ]

  -- The memory of a node, with what the constructor of Node leaves there.
  unfoldable pub new_node : Exec (Site (Memory K)) ℕ
  new_node s = done s.world.next (record s {
    world = record {
      world = set_base s.world.next empty_node s.world.world;
      next = suc s.world.next;
    };
  })

-- The objects that the constructors leave: nothing runs yet.
abbrev pub idle_program : ExecutableNode → Derived
idle_program command = executable (record { command = command; pid_instance = [] })

abbrev pub idle_launch : NameMap → List Linkage → List Externalize → Derived
idle_launch nodes links externals =
    launch (record { nodes = nodes; instances = []; links = links; externals = externals })

abbrev pub idle_sequence : NameMap → List Text → Derived
idle_sequence nodes order = sequence_node (record { nodes = nodes; sequences = []; order = order })
