-- ===== src/Sequence.antt =====
-- src/SequenceNode.cxx. `startup` and `finish_instance` are those of the nodes, tied in
-- Dispatch.antt; `rounds` bounds the rounds of `linkFd`.
pub mod Course
pub mod Ready
pub mod Stage
pub mod Start
use arclaunch.Prelude.{
  ℕ, zero, suc, ℤ, pos, negsuc, incr, Option, none, some, List, [], ◌∷◌, Exec, Outcome, done,
  thrown, exited, undefined, no_fuel, ◌>>=◌, ◌>>◌, pure, throw, if◌then◌else◌, Bool, true, false,
  not, ◌||◌, is_some, leb, ◌==◌, length, get_elem?,
}
use arclaunch.Prelude.Map.{Map, lookup, insert, erase}
use arclaunch.Text.{Text}
use arclaunch.NameMap.{NameMap, find_name}
use arclaunch.Os.{Os}
use arclaunch.Node.{Node, CompletionHandler, proceed}
use arclaunch.Node.Fds.{Local, pass_fds, close_all}
use arclaunch.Node.Instances.{add_instance_completion_handler, instance_is_running}
use arclaunch.World.{
  World, SequenceNode, RunningSequence, Derived, sequence_node, sequence_of, set_base, set_derived,
  on_node, deref, modify,
}

abbrev pub empty_node : Node
empty_node = record { fd_map = []; on_death = []; on_instance_death = []; instances = [] }

-- The constructor RunningSequence(SequenceNode*).
unfoldable pub running_sequence : ℕ → RunningSequence
running_sequence p = record {
  node = empty_node;
  owner = p;
  inst_num = none;
  current_node = none;
  current_stage_inst_num = none;
  stage = negsuc 0;
}

unfoldable pub emplace : ℕ → RunningSequence → Map RunningSequence → Map RunningSequence
emplace i x m = if is_some (lookup i m) then m else insert i x m

-- stage >= order.size(), where a negative stage is converted to a large size_t
unfoldable pub at_end : ℤ → ℕ → Bool
at_end (pos n) size = leb size n
at_end (negsuc n) size = true

unfoldable pub stage_name : ℤ → List Text → Option Text
stage_name (pos n) order = get_elem? order n
stage_name (negsuc n) order = none

module _ {K : Type 0} where
  abbrev pub the_sequence : ℕ → Exec (World K) SequenceNode
  the_sequence p = deref λ w. sequence_of (w.derived p)

  abbrev pub put_sequence : ℕ → SequenceNode → Exec (World K) (Unit {0})
  put_sequence p s = modify (set_derived p (sequence_node s))

  -- The RunningSequence behind a pointer to the entry `inst` of the map of `p`.
  unfoldable pub the_running : ℕ → ℕ → Exec (World K) RunningSequence
  the_running p inst = do s ← the_sequence p; deref λ w. lookup inst s.sequences

  unfoldable pub put_running : ℕ → ℕ → RunningSequence → Exec (World K) (Unit {0})
  put_running p inst r = do
    s ← the_sequence p
    put_sequence p (record s { sequences = insert inst r s.sequences })

  -- A method of Node on the RunningSequence itself.
  unfoldable pub on_running : ℕ → ℕ → Exec (Local K) (Unit {0}) → Exec (World K) (Unit {0})
  unfolding the_running put_running
  on_running p inst m = do
    r ← the_running p inst
    λ w. elim (m (record { node = r.node; kernel = w.kernel })) [
      | done u l ↦ put_running p inst (record r { node = l.node }) (record w { kernel = l.kernel })
      | thrown e l ↦
          (do put_running p inst (record r { node = l.node }); throw e)
            (record w { kernel = l.kernel })
      | exited c l ↦ exited c (record w { kernel = l.kernel })
      | undefined ↦ undefined
      | no_fuel ↦ no_fuel
    ]

  abbrev pub deref_value : {A : Type 0} → Option A → Exec (World K) A
  deref_value o = deref λ w. o

module _ {K : Type 0} (os : Os K) (rounds : ℕ) where
  -- sequences.erase(inst). The destructor of the RunningSequence closes its descriptors.
  unfoldable pub erase_running : ℕ → ℕ → Exec (World K) (Unit {0})
  erase_running p inst = do
    r ← the_running p inst
    s ← the_sequence p
    put_sequence p (record s { sequences = erase inst s.sequences })
    modify λ w. record w { kernel = close_all os r.node.fd_map w.kernel }

  module _ (startup : ℕ → Exec (World K) ℕ)
      (finish_instance : ℕ → ℕ → ℕ → Exec (World K) (Unit {0})) where
    -- The last lines of `proceed`.
    unfoldable pub start_stage : ℕ → ℕ → Exec (World K) (Unit {0})
    start_stage p inst = do
      self ← the_running p inst
      s ← the_sequence self.owner
      name ← deref_value (stage_name self.stage s.order)
      node ← deref_value (find_name name s.nodes)
      put_running p inst (record self { current_node = some node })
      modify λ w. set_base node (add_instance_completion_handler (proceed p inst) (w.base node)) w
      on_node node (pass_fds os rounds self.node.fd_map)
      number ← startup node
      self ← the_running p inst
      put_running p inst (record self { current_stage_inst_num = some number })

    -- RunningSequence::proceed; `inst_num` is read after the object is destroyed.
    unfoldable pub proceed_sequence : ℕ → ℕ → ℕ → Exec (World K) (Unit {0})
    proceed_sequence p inst retval = do
      self ← the_running p inst
      put_running p inst (record self { stage = incr self.stage })
      s ← the_sequence self.owner
      if not (retval == 0) || at_end (incr self.stage) (length s.order)
          then (do
            put_running p inst (record self { stage = negsuc 0 })
            number ← deref_value self.inst_num
            erase_running self.owner number
            finish_instance self.owner (os.freed number) retval)
          else start_stage p inst

    unfoldable pub start_instance : ℕ → ℕ → Exec (World K) (Unit {0})
    unfolding emplace running_sequence on_running pass_fds proceed_sequence
    start_instance p inst = do
      s ← the_sequence p
      put_sequence p (record s { sequences = emplace inst (running_sequence p) s.sequences })
      λ w. on_running p inst (pass_fds os rounds (w.base p).fd_map) w
      r ← the_running p inst
      put_running p inst (record r { inst_num = some inst })
      proceed_sequence p inst 0

module _ {K : Type 0} (wait : ℕ → ℕ → Exec (World K) (Unit {0})) where
  -- `waitForInstance`, with that of the nodes of the sequence.
  unfoldable pub wait_for_instance : ℕ → ℕ → ℕ → Exec (World K) (Unit {0})
  wait_for_instance zero p inst w =
      if instance_is_running inst (w.base p) then no_fuel else done tt w
  wait_for_instance (suc fuel) p inst w =
      let rest = wait_for_instance fuel p inst in
      if instance_is_running inst (w.base p)
      then (do
        r ← the_running p inst
        node ← deref_value r.current_node
        number ← deref_value r.current_stage_inst_num
        wait node number
        rest)
          w
      else done tt w
