-- ===== src/Samples/Deaths.antt =====
-- A launch of two programs of which one ends.
use arclaunch.Prelude.{
  ℕ, ◌≡◌, ◌≢◌, refl, false, some, none, [], ◌∷◌, done, arith, ◌==◌, if◌then◌else◌,
}
use arclaunch.Prelude.Map.{Map, Each, lookup, erase}
use arclaunch.Text.{codes}
use arclaunch.Os.Table.{Table, table_os}
use arclaunch.Node.{external, sub_node_death}
use arclaunch.Node.Instances.{instance_is_running}
use arclaunch.Node.Instances.Finish.{call_of}
use arclaunch.Sequence.{empty_node}
use arclaunch.Process.Running.{HasProcess}
use arclaunch.Process.Wait.{find_pid}
use arclaunch.Launch.{is_empty}
use arclaunch.Launch.Deaths.{Waits, Ended}
use arclaunch.Launch.Waiting.{instance_of}
use arclaunch.Dispatch
use arclaunch.Dispatch.{reaper}
use arclaunch.Dispatch.Awaited.{IsMember, taken_while}
use arclaunch.Dispatch.Waiting.{IsUsers, wait_for_instance-Ended}
use arclaunch.Dispatch.Deaths.{reaper-Waits, reaper-Waits_last}
use arclaunch.World.{World, Process, executable, launch}
use arclaunch.Samples.{pair}

abbrev process_of : ℕ → Process
process_of pid = record {
  command = record { path_seq = []; arg_seq = []; env_seq = [] };
  pid_instance = (pid, 0) ∷ [];
}

-- Instance 0 of the launch node 0 waits for the nodes of `m`. Process 100 is that of node 1, and
-- process 101 that of node 2.
abbrev launched : Map ℕ → World Table
launched m = record pair {
  base = λ p. record empty_node {
    instances = (0, (if p == 0 then external 7 else sub_node_death 0 0) ∷ []) ∷ [];
  };
  derived = λ p.
      if p == 0
      then some (
          launch (record {
            nodes = (codes "a", 1) ∷ (codes "b", 2) ∷ [];
            instances = (0, instance_of 0 0 m) ∷ [];
            links = [];
            externals = [];
          }))
      else some (executable (process_of (if p == 1 then 100 else 101)));
  running_nodes = (100, 1) ∷ (101, 2) ∷ [];
}

launched-Waits : (m : Map ℕ) → Waits (launched m) 0 0 m
unfolding lookup
launched-Waits m = record { node = _; derived = refl; is_map = omega arith; found = refl }

first-HasProcess : (m : Map ℕ) → HasProcess (launched m) 1 0 100 (sub_node_death 0 0 ∷ [])
unfolding lookup
first-HasProcess m = record {
  process = process_of 100;
  registered = refl;
  is_map = omega arith;
  derived = refl;
  number = refl;
  handlers = refl;
  instances_is_map = omega arith;
}

reaper-Waits_example :
    (v : World Table) × (reaper table_os 17 2 100 5 (launched ((1, 0) ∷ (2, 0) ∷ [])) ≡ done tt v)
    × Waits v 0 0 ((2, 0) ∷ [])
    × (v.calls ≡ [])
    × (instance_is_running 0 (v.base 1) ≡ false)
    × ((q : ℕ) → q ≢ 1 → v.base q ≡ (launched ((1, 0) ∷ (2, 0) ∷ [])).base q)
unfolding erase is_empty
reaper-Waits_example =
    reaper-Waits table_os 17 1 (launched ((1, 0) ∷ (2, 0) ∷ [])) 0 0 1 0 100 5
      ((1, 0) ∷ (2, 0) ∷ []) (launched-Waits ((1, 0) ∷ (2, 0) ∷ []))
      (first-HasProcess ((1, 0) ∷ (2, 0) ∷ [])) refl refl

reaper-Waits_last_example :
    (v : World Table) × (reaper table_os 17 3 100 5 (launched ((1, 0) ∷ [])) ≡ done tt v)
    × Ended v 0 0
    × (v.calls ≡ call_of 0 0 0 7 ∷ [])
    × (instance_is_running 0 (v.base 0) ≡ false)
    × (instance_is_running 0 (v.base 1) ≡ false)
unfolding lookup erase is_empty
reaper-Waits_last_example =
    reaper-Waits_last table_os 17 1 (launched ((1, 0) ∷ [])) 0 0 1 0 100 5 ((1, 0) ∷ []) [] (7 ∷ [])
      (launched-Waits ((1, 0) ∷ [])) (first-HasProcess ((1, 0) ∷ [])) refl refl (omega arith) refl
      refl

abbrev both_nodes : Map ℕ
both_nodes = (1, 0) ∷ (2, 0) ∷ []

abbrev pid_of : ℕ → ℕ
pid_of n = if n == 1 then 100 else 101

abbrev return_of : ℕ → ℕ
return_of n = 5

program_IsMember :
    (n : ℕ)
    → lookup (pid_of n) (launched both_nodes).running_nodes ≡ some n
    → (launched both_nodes).derived n ≡ some (executable (process_of (pid_of n)))
    → find_pid 0 ((pid_of n, 0) ∷ []) none ≡ some (pid_of n)
    → lookup {V = ℕ} (pid_of n) ((pid_of n, 0) ∷ []) ≡ some 0
    → lookup 0 ((launched both_nodes).base n).instances ≡ some (sub_node_death 0 0 ∷ [])
    → IsMember table_os 17 2 pid_of return_of 0 0 (launched both_nodes) n 0
program_IsMember n registered derived last number handlers = record {
  has = record {
    process = process_of (pid_of n);
    registered = registered;
    is_map = omega arith;
    derived = derived;
    number = number;
    handlers = handlers;
    instances_is_map = omega arith;
  };
  quiet = refl;
  last = last;
}

members : Each (IsMember table_os 17 2 pid_of return_of 0 0 (launched both_nodes)) both_nodes
unfolding lookup find_pid
members =
    (program_IsMember 1 refl refl refl refl refl, (program_IsMember 2 refl refl refl refl refl, tt))

launched-IsUsers : IsUsers 0 0 [] (7 ∷ []) (launched both_nodes)
unfolding lookup
launched-IsUsers = record { is_map = omega arith; general_handlers = refl; own_handlers = refl }

wait_for_instance-Ended_example :
    (v : World Table) × (Dispatch.wait_for_instance table_os 17
        (taken_while table_os 17 2 pid_of return_of)
        6
        0
        0
        (launched both_nodes)
      ≡ done tt v)
    × Ended v 0 0
    × (v.calls ≡ call_of 0 0 0 7 ∷ [])
    × (instance_is_running 0 (v.base 0) ≡ false)
wait_for_instance-Ended_example =
    wait_for_instance-Ended table_os 17 2 pid_of return_of 0 0 1 0 ((2, 0) ∷ []) [] (7 ∷ [])
      (launched both_nodes) (launched-Waits both_nodes) (omega arith) members launched-IsUsers refl
      (omega arith)
