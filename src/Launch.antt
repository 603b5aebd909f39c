-- ===== src/Launch.antt =====
-- src/LaunchNode.cxx. `startup` and `finish_instance` are those of the nodes, tied in Dispatch.antt;
-- `rounds` bounds the rounds of `linkFd`.
pub mod Deaths
pub mod Waiting
use arclaunch.Prelude.{
  ℕ, zero, suc, Option, none, some, List, [], ◌∷◌, Exec, Outcome, done, thrown, exited, undefined,
  no_fuel, ◌>>=◌, ◌>>◌, pure, if◌then◌else◌, Bool, true, false, is_some,
}
use arclaunch.Prelude.Map.{Map, lookup, insert, erase}
use arclaunch.Text.{Text}
use arclaunch.NameMap.{NameMap, find_name}
use arclaunch.Element.{Linkage, Externalize}
use arclaunch.Os.{Os, Piped, piped, pipe_failed}
use arclaunch.Node.{Node, CompletionHandler, sub_node_death}
use arclaunch.Node.Fds.{link_fd, pass_fd}
use arclaunch.Node.Instances.{add_instance_completion_handler, instance_is_running}
use arclaunch.World.{
  World, LaunchNode, LaunchInstance, Derived, launch, launch_of, set_base, set_derived, on_node,
  deref, modify,
}

unfoldable pub is_empty : Map ℕ → Bool
is_empty [] = true
is_empty (x ∷ m) = false

-- emplace leaves an entry that is there.
unfoldable pub emplace : ℕ → LaunchInstance → Map LaunchInstance → Map LaunchInstance
emplace i x m = if is_some (lookup i m) then m else insert i x m

module _ {K : Type 0} where
  abbrev pub the_launch : ℕ → Exec (World K) LaunchNode
  the_launch p = deref λ w. launch_of (w.derived p)

  abbrev pub put_launch : ℕ → LaunchNode → Exec (World K) (Unit {0})
  put_launch p l = modify (set_derived p (launch l))

  -- The LaunchInstance behind a pointer to the entry `inst` of the map of `p`.
  unfoldable pub the_instance : ℕ → ℕ → Exec (World K) LaunchInstance
  the_instance p inst = do l ← the_launch p; deref λ w. lookup inst l.instances

  unfoldable pub put_instance : ℕ → ℕ → LaunchInstance → Exec (World K) (Unit {0})
  unfolding the_instance
  put_instance p inst x = do
    l ← the_launch p
    put_launch p (record l { instances = insert inst x l.instances })

  unfoldable pub erase_instance : ℕ → ℕ → Exec (World K) (Unit {0})
  erase_instance p inst = do
    l ← the_launch p
    put_launch p (record l { instances = erase inst l.instances })

  -- getNode: a name that is not there yields a null reference.
  unfoldable pub get_node : ℕ → Text → Exec (World K) ℕ
  get_node p name = do l ← the_launch p; deref λ w. find_name name l.nodes

module _ {K : Type 0} (os : Os K) (rounds : ℕ) where
  unfoldable pub open_link : Exec (World K) (ℕ × ℕ)
  open_link w = elim (os.pipe2 w.kernel) [
    | piped r t k ↦ done (r, t) (record w { kernel = k })
    | pipe_failed k ↦ undefined
  ]

  abbrev pub close_fd : ℕ → Exec (World K) (Unit {0})
  close_fd fd = modify λ w. record w { kernel = os.close w.kernel fd }

  -- One round of the first loop of `startInstance`.
  unfoldable pub link_nodes : ℕ → Linkage → Exec (World K) (Unit {0})
  unfolding get_node link_fd
  link_nodes p x = do
    (read_end, write_end) ← open_link
    to ← get_node p x.to
    on_node to (link_fd os rounds x.to_fd read_end)
    from ← get_node p x.from
    on_node from (link_fd os rounds x.from_fd write_end)
    close_fd read_end
    close_fd write_end

  unfoldable pub link_all : ℕ → List Linkage → Exec (World K) (Unit {0})
  unfolding link_nodes
  link_all p [] = pure tt
  link_all p (x ∷ xs) = do link_nodes p x; link_all p xs

  unfoldable pub externalize : ℕ → List Externalize → Exec (World K) (Unit {0})
  unfolding get_node pass_fd
  externalize p [] = pure tt
  externalize p (x ∷ xs) = do
    node ← get_node p x.node
    λ w. on_node node (pass_fd os rounds (w.base p).fd_map x.external x.internal) w
    externalize p xs

  module _ (startup : ℕ → Exec (World K) ℕ) where
    -- The loop that starts the sub-nodes. The number of the new instance is computed before the
    -- place in `nodeInstances` that takes it, which C++17 prescribes and which is assumed here:
    -- CMakeLists.txt builds as C++11, which leaves the order open.
    unfoldable pub start_nodes : ℕ → ℕ → NameMap → Exec (World K) (Unit {0})
    unfolding the_instance put_instance add_instance_completion_handler
    start_nodes p inst [] = pure tt
    start_nodes p inst ((name, node) ∷ ns) = do
      modify λ w.
          set_base node (add_instance_completion_handler (sub_node_death p inst) (w.base node)) w
      number ← startup node
      x ← the_instance p inst
      put_instance p inst (record x { node_instances = insert node number x.node_instances })
      start_nodes p inst ns

    module _ (finish_instance : ℕ → ℕ → ℕ → Exec (World K) (Unit {0})) where
      unfoldable pub start_instance : ℕ → ℕ → Exec (World K) (Unit {0})
      unfolding link_all externalize start_nodes emplace is_empty erase_instance
      start_instance p inst = do
        l ← the_launch p
        link_all p l.links
        externalize p l.externals
        l ← the_launch p
        put_launch p (record l {
          instances =
              emplace inst (record { owner = p; inst_num = inst; node_instances = [] }) l.instances;
        })
        x ← the_instance p inst
        put_instance p inst (record x { owner = p; inst_num = inst })
        start_nodes p inst l.nodes
        x ← the_instance p inst
        if is_empty x.node_instances
            then (do finish_instance p inst 0; erase_instance p inst)
            else pure tt

module _ {K : Type 0} (finish_instance : ℕ → ℕ → ℕ → Exec (World K) (Unit {0})) where
  unfoldable pub on_sub_node_death : ℕ → ℕ → ℕ → ℕ → ℕ → Exec (World K) (Unit {0})
  unfolding the_instance put_instance erase_instance is_empty
  on_sub_node_death p inst retval sub_node sub_inst = do
    x ← the_instance p inst
    put_instance p inst (record x { node_instances = erase sub_node x.node_instances })
    if is_empty (erase sub_node x.node_instances)
        then (do
          finish_instance x.owner x.inst_num 0
          self ← the_instance p inst
          erase_instance self.owner self.inst_num)
        else pure tt

-- `begin` of a map.
abbrev pub first_of : Map ℕ → Option (ℕ × ℕ)
first_of [] = none
first_of (x ∷ m) = some x

module _ {K : Type 0} (wait : ℕ → ℕ → Exec (World K) (Unit {0})) where
  -- `waitForInstance`, with that of the sub-nodes. To follow the iterator of an empty map is
  -- undefined.
  unfoldable pub wait_for_instance : ℕ → ℕ → ℕ → Exec (World K) (Unit {0})
  unfolding the_instance
  wait_for_instance zero p inst w =
      if instance_is_running inst (w.base p) then no_fuel else done tt w
  wait_for_instance (suc fuel) p inst w =
      let rest = wait_for_instance fuel p inst in
      if instance_is_running inst (w.base p)
      then (do
        x ← the_instance p inst
        (node, number) ← deref λ v. first_of x.node_instances
        wait node number
        rest)
          w
      else done tt w
