-- ===== src/Samples/Waiting.antt =====
-- waitForInstance at a concrete world.
use arclaunch.Prelude.{some, ◌≡◌, refl, false, none, [], ◌∷◌, done, arith}
use arclaunch.Prelude.Map.{lookup}
use arclaunch.Os.Table.{Table}
use arclaunch.Node.{CompletionHandler, external}
use arclaunch.Node.Instances.{instance_is_running, finish_instance}
use arclaunch.Node.Instances.Finish.{call_of, noted}
use arclaunch.Sequence.{empty_node}
use arclaunch.Process.Wait.{ended, failed_wait, wait_for_instance, find_pid}
use arclaunch.Process.Wait.Race.{wait_for_instance-HasProcess}
use arclaunch.World.{World, Callback, Process, executable}
use arclaunch.Samples.{pair}

-- Instance 4 of node 1 runs as process 100; process 90 was that of an earlier instance 4.
abbrev process : Process
process = record {
  command = record { path_seq = []; arg_seq = []; env_seq = [] };
  pid_instance = (90, 4) ∷ (100, 4) ∷ [];
}

abbrev waited : World Table
waited = record pair {
  base =
      λ p. record empty_node { on_death = external 3 ∷ []; instances = (4, external 5 ∷ []) ∷ [] };
  derived = λ p. some (executable process);
  running_nodes = (100, 1) ∷ [];
}

abbrev note_call : Callback Table
note_call (external tag) retval p inst w = done tt (noted tag retval p inst w)
note_call (CompletionHandler.sub_node_death owner i) retval p inst w = done tt w
note_call (CompletionHandler.proceed owner i) retval p inst w = done tt w

wait_for_instance-HasProcess_example :
    (v : World Table) × (wait_for_instance (finish_instance note_call) 1 4 (ended 9 ∷ []) waited
      ≡ done tt v)
    × (wait_for_instance (finish_instance note_call) 1 4 (failed_wait ((100, 9) ∷ []) ∷ []) waited
        ≡ done tt v)
    × (v.calls ≡ call_of 9 1 4 3 ∷ call_of 9 1 4 5 ∷ [])
    × (instance_is_running 4 (v.base 1) ≡ false)
    × (lookup 100 v.running_nodes ≡ none)
unfolding find_pid lookup
wait_for_instance-HasProcess_example =
    wait_for_instance-HasProcess note_call waited 1 4 100 9 (3 ∷ []) (5 ∷ [])
      (λ tag retval p inst w. refl)
      (record {
        process = process;
        registered = refl;
        is_map = omega arith;
        derived = refl;
        number = refl;
        handlers = refl;
        instances_is_map = omega arith;
      })
      refl [] refl
