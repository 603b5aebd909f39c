-- ===== src/Node/Instances.antt =====
-- src/Node.cxx: the instances of a node, and the handlers that wait for their end. The virtual
-- method and the handlers are parameters here: Dispatch.antt ties them to the classes.
pub mod Startup
pub mod Finish
pub mod Waits
use arclaunch.Prelude.{
  ℕ, zero, suc, ◌+◌, Bool, true, false, not, Option, none, some, is_some, List, [], ◌∷◌, ◌++◌, Exec,
  Outcome, done, thrown, exited, undefined, no_fuel, ◌>>=◌, ◌>>◌, pure, length, if◌then◌else◌,
}
use arclaunch.Prelude.Map.{Map, lookup, insert, erase}
use arclaunch.Os.{Os}
use arclaunch.Node.{Node, CompletionHandler}
use arclaunch.Node.Fds.{Local, close_fds}
use arclaunch.World.{World, set_base, Callback, on_node, modify}

unfoldable pub instance_is_running : ℕ → Node → Bool
instance_is_running inst n = is_some (lookup inst n.instances)

unfoldable pub is_running : Node → Bool
is_running n = elim n.instances [ [] ↦ false | _ ↦ true ]

unfoldable pub num_instances_running : Node → ℕ
num_instances_running n = length n.instances

unfoldable pub add_completion_handler : CompletionHandler → Node → Node
add_completion_handler h n = record n { on_death = n.on_death ++ h ∷ [] }

unfoldable pub add_instance_completion_handler : CompletionHandler → Node → Node
add_instance_completion_handler h n = record n { on_instance_death = n.on_instance_death ++ h ∷ [] }

-- The loop of `startup`; `none` if the rounds run out.
unfoldable pub free_instance : ℕ → ℕ → Node → Option ℕ
unfolding instance_is_running
free_instance zero inst n = none
free_instance (suc fuel) inst n = elim (instance_is_running inst n) [
  | true ↦ free_instance fuel (inst + 1) n
  | false ↦ some inst
]

-- instances[inst] = onInstanceDeath; onInstanceDeath.clear();
unfoldable pub begin_instance : ℕ → Node → Node
begin_instance inst n = record n {
  instances = insert inst n.on_instance_death n.instances;
  on_instance_death = [];
}

abbrev pub handlers_of : Option (List CompletionHandler) → List CompletionHandler
handlers_of none = []
handlers_of (some hs) = hs

module _ {K : Type 0} (os : Os K) where
  unfoldable pub startup : (ℕ → ℕ → Exec (World K) (Unit {0})) → ℕ → Exec (World K) ℕ
  startup start_instance p w =
      elim (free_instance (suc (length (w.base p).instances)) 0 (w.base p)) [
        | none ↦ no_fuel
        | some inst ↦
            (do
              modify (λ v. set_base p (begin_instance inst (v.base p)) v)
              start_instance p inst
              on_node p (λ l. done tt (close_fds os l))
              pure inst)
              w
      ]

module _ {K : Type 0} where
  -- One of the two loops of `finishInstance`. No handler of the library adds to the vector that is
  -- being walked.
  unfoldable pub run_handlers :
      Callback K → ℕ → ℕ → ℕ → List CompletionHandler → Exec (World K) (Unit {0})
  run_handlers call retval p inst [] = pure tt
  run_handlers call retval p inst (h ∷ hs) = do
    call h retval p inst
    run_handlers call retval p inst hs

  unfoldable pub finish_instance : Callback K → ℕ → ℕ → ℕ → Exec (World K) (Unit {0})
  finish_instance call p inst retval w =
      if not (instance_is_running inst (w.base p))
      then done tt w
      else (do
        run_handlers call retval p inst (w.base p).on_death
        λ v. run_handlers call retval p inst (handlers_of (lookup inst (v.base p).instances)) v
        modify
            (λ v. set_base p (record (v.base p) { instances = erase inst (v.base p).instances }) v))
          w

module _ {K : Type 0} (wait_for_instance : ℕ → ℕ → Exec (World K) (Unit {0})) where
  -- `waitFor`, with the virtual method of the node.
  unfoldable pub wait_for : ℕ → ℕ → Exec (World K) (Unit {0})
  unfolding is_running
  wait_for zero p w = if is_running (w.base p) then no_fuel else done tt w
  wait_for (suc fuel) p w =
      let rest = wait_for fuel p in
      elim (w.base p).instances [
        | [] ↦ done tt w
        | (num, handlers) ∷ m ↦ (do wait_for_instance p num; rest) w
      ]
