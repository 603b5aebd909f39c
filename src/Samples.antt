-- ===== src/Samples.antt =====
-- Worlds to run the model on, and whole runs of it.
mod Descriptors
mod Lifetimes
mod Stages
mod Waiting
mod Deaths
mod Commands
mod Frames
mod Wire
mod Sockets
mod Memory
mod Service
mod Reach
mod Building
mod Program
use arclaunch.Prelude.{
  ℕ, ◌≡◌, refl, Option, none, some, List, [], ◌∷◌, ◌++◌, Exec, Outcome, done, thrown, exited,
  undefined, no_fuel, ◌>>=◌, ◌>>◌, pure, ◌==◌, if◌then◌else◌, false, true,
}
use arclaunch.Text.{codes, text_eq}
use arclaunch.Os.Table.{Table, table_os}
use arclaunch.Node.{Node, external}
use arclaunch.World.{World, Derived, executable, launch, sequence_node, Process, Call}
use arclaunch.Sequence.{empty_node}
use arclaunch.Dispatch
use arclaunch.Launch
use arclaunch.Sequence
use arclaunch.Node.Instances
use arclaunch.Node.Instances.{
  free_instance, begin_instance, run_handlers, instance_is_running, add_instance_completion_handler,
}
use arclaunch.Prelude.Map.{lookup, insert, erase}
use arclaunch.Launch.{open_link}
use arclaunch.NameMap.{find_name}
use arclaunch.Node.Fds.{close_fds, pass_fds}

abbrev pub kernel : Table
kernel = record {
  entries = λ c.
      if c == 0
      then some 0
      else if c == 1
      then some 1
      else if c == 2
      then some 1
      else if c == 4
      then some 7
      else if c == 5
      then some 8
      else none;
  next_pid = 100;
}

abbrev pub program : Derived
program =
    executable
      (record { command = record { path_seq = []; arg_seq = []; env_seq = [] }; pid_instance = [] })

-- Node 0 has one waiting handler of the user.
abbrev pub world : (ℕ → Option Derived) → World Table
world d = record {
  kernel = kernel;
  base =
      λ p. if p == 0 then record empty_node { on_instance_death = external 7 ∷ [] } else empty_node;
  derived = d;
  sockets = λ p. none;
  reaping = false;
  running_nodes = [];
  calls = [];
}

-- Two programs, the output of the first to the input of the second.
abbrev pub pair : World Table
pair = world λ p.
    if p == 0
    then some (
        launch (record {
          nodes = (codes "a", 1) ∷ (codes "b", 2) ∷ [];
          instances = [];
          links = record { from = codes "a"; to = codes "b"; from_fd = 1; to_fd = 0 } ∷ [];
          externals = [];
        }))
    else some program

abbrev pub chain : World Table
chain = world λ p.
    if p == 0
    then some (
        sequence_node (record {
          nodes = (codes "a", 1) ∷ (codes "b", 2) ∷ [];
          sequences = [];
          order = codes "b" ∷ codes "a" ∷ [];
        }))
    else some program

abbrev pub calls_after : Outcome (World Table) (Unit {0}) → Option (List Call)
calls_after (done u w) = some w.calls
calls_after _ = none

reap_all : List (ℕ × ℕ) → Exec (World Table) (Unit {0})
reap_all [] = pure tt
reap_all ((pid, retval) ∷ rest) = do Dispatch.reaper table_os 17 5 pid retval; reap_all rest

-- Node 0 is started, and then the processes end with their return values.
play : List (ℕ × ℕ) → World Table → Option (List Call)
unfolding Dispatch.startup Dispatch.reaper find_name Instances.startup free_instance begin_instance
    lookup insert erase open_link text_eq Instances.finish_instance run_handlers instance_is_running
    close_fds Launch.on_sub_node_death Sequence.proceed_sequence Sequence.start_stage
    Sequence.at_end Sequence.stage_name Sequence.erase_running pass_fds
    add_instance_completion_handler reap_all
play ends w = calls_after ((do Dispatch.startup table_os 17 5 0; reap_all ends) w)

-- The two programs of a launch end in the other order; the user's handler is called once.
play-pair :
    play ((101, 3) ∷ (100, 0) ∷ []) pair
    ≡ some (record { tag = 7; retval = 0; node = 0; inst = 0 } ∷ [])
unfolding play
play-pair = refl

-- The sequence runs node 2 and then node 1, which ends with 3.
play-chain :
    play ((100, 0) ∷ (101, 3) ∷ []) chain
    ≡ some (record { tag = 7; retval = 3; node = 0; inst = 0 } ∷ [])
unfolding play
play-chain = refl

-- A sequence that breaks off does not start its second node.
play-chain_broken :
    play ((100, 4) ∷ []) chain ≡ some (record { tag = 7; retval = 4; node = 0; inst = 0 } ∷ [])
unfolding play
play-chain_broken = refl
