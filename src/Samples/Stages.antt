-- ===== src/Samples/Stages.antt =====
-- A sequence of two programs at concrete worlds.
use arclaunch.Prelude.{
  none, ◌≢◌, All, ℕ, ◌≡◌, refl, false, some, [], ◌∷◌, pos, done, arith, ◌==◌, inl, if◌then◌else◌,
}
use arclaunch.Prelude.Map.{Map, lookup, erase}
use arclaunch.Text.{codes, text_eq}
use arclaunch.NameMap.{NameMap, find_name}
use arclaunch.Os.Table.{Table, table_os}
use arclaunch.Node.{external, proceed}
use arclaunch.Node.Instances.{instance_is_running}
use arclaunch.Node.Instances.Startup.{IsFirstFree}
use arclaunch.Node.Instances.Finish.{call_of}
use arclaunch.Command.{env_sequence_to_env_data}
use arclaunch.Sequence.{empty_node}
use arclaunch.Sequence.Course.{Ended}
use arclaunch.Dispatch.{startup, reaper}
use arclaunch.Dispatch.Programs.{IsProgram}
use arclaunch.Dispatch.Stages.{StageRuns, reaper-StageRuns, reaper-Ended}
use arclaunch.Dispatch.Entry.{startup-StageRuns}
use arclaunch.Dispatch.{start_instance}
use arclaunch.Dispatch.Members.{IsStartable, IsMember, start_nodes-Waits}
use arclaunch.Launch.{start_nodes}
use arclaunch.Launch.Waiting.{instance_of}
use arclaunch.Launch.Deaths.{Waits}
use arclaunch.Node.Instances
use arclaunch.World.{World, launch, Process, RunningSequence, executable, sequence_node}
use arclaunch.Samples.{kernel, chain, pair}

abbrev program_process : Process
program_process = record {
  command = record { path_seq = []; arg_seq = []; env_seq = [] };
  pid_instance = [];
}

abbrev names : NameMap
names = (codes "a", 1) ∷ (codes "b", 2) ∷ []

abbrev next_kernel : Table
next_kernel = record kernel { next_pid = 101 }

chain-IsProgram : IsProgram chain 2 program_process
chain-IsProgram = record { derived = refl; is_map = tt; no_handler = refl; quiet = refl }

startup-StageRuns_example :
    (i : ℕ) × (v : World Table) × (r : RunningSequence) × (j : ℕ) × (startup table_os 17 3 0 chain
      ≡ done i v)
    × StageRuns v 0 i names (codes "b" ∷ []) (codes "a" ∷ []) r 2 j 100
    × IsFirstFree (chain.base 0) i
    × (lookup i (v.base 0).instances ≡ some (external 7 ∷ []))
unfolding find_name text_eq env_sequence_to_env_data lookup
startup-StageRuns_example =
    startup-StageRuns table_os 17 1 chain 0 2 100 next_kernel (codes "b") names (codes "a" ∷ []) []
      program_process [] refl tt (λ i e. refl) refl tt tt refl chain-IsProgram refl refl

-- The sequence waits for process 100 of its first node.
abbrev running_first : RunningSequence
running_first = record {
  node = empty_node;
  owner = 0;
  inst_num = some 0;
  current_node = some 2;
  current_stage_inst_num = some 0;
  stage = pos 0;
}

abbrev first_program : Process
first_program = record program_process { pid_instance = (100, 0) ∷ [] }

abbrev in_course : World Table
in_course = record chain {
  kernel = next_kernel;
  base = λ p.
      if p == 0
      then record empty_node { instances = (0, external 7 ∷ []) ∷ [] }
      else if p == 2
      then record empty_node { instances = (0, proceed 0 0 ∷ []) ∷ [] }
      else empty_node;
  derived = λ p.
      if p == 0
      then some (
          sequence_node (record {
            nodes = names;
            sequences = (0, running_first) ∷ [];
            order = codes "b" ∷ codes "a" ∷ [];
          }))
      else if p == 2
      then some (executable first_program)
      else some (executable program_process);
  running_nodes = (100, 2) ∷ [];
}

in_course-StageRuns :
    StageRuns in_course 0 0 names (codes "b" ∷ []) (codes "a" ∷ []) running_first 2 0 100
unfolding lookup
in_course-StageRuns = record {
  ready = record {
    runs = record {
      sequences = (0, running_first) ∷ [];
      derived = refl;
      is_map = omega arith;
      found = refl;
    };
    owner = refl;
    number = refl;
    no_fds = refl;
    stage = refl;
  };
  process = record {
    process = first_program;
    registered = refl;
    is_map = omega arith;
    derived = refl;
    number = refl;
    handlers = refl;
    instances_is_map = omega arith;
  };
  quiet = refl;
}

in_course-IsProgram : IsProgram in_course 1 program_process
in_course-IsProgram = record { derived = refl; is_map = tt; no_handler = refl; quiet = refl }

reaper-StageRuns_example :
    (v : World Table) × (r : RunningSequence) × (j : ℕ) × (reaper table_os 17 3 100 0 in_course
      ≡ done tt v)
    × StageRuns v 0 0 names (codes "b" ∷ codes "a" ∷ []) [] r 1 j 101
    × (instance_is_running 0 (v.base 2) ≡ false)
unfolding find_name text_eq env_sequence_to_env_data
reaper-StageRuns_example =
    reaper-StageRuns table_os 17 1 in_course 0 0 2 0 100 1 101 (record kernel { next_pid = 102 })
      (codes "a") names (codes "b" ∷ []) [] running_first program_process [] in_course-StageRuns
      refl (omega arith) in_course-IsProgram refl refl

reaper-Ended_example :
    (v : World Table) × (reaper table_os 17 3 100 6 in_course ≡ done tt v)
    × Ended v 0 0
    × (v.calls ≡ call_of 6 0 0 7 ∷ [])
    × (v.running_nodes ≡ erase 100 ((100, 2) ∷ []))
    × (instance_is_running 0 (v.base 0) ≡ false)
    × (instance_is_running 0 (v.base 2) ≡ false)
unfolding lookup
reaper-Ended_example =
    reaper-Ended table_os 17 1 in_course 0 0 2 0 100 6 names (codes "b" ∷ []) (codes "a" ∷ [])
      running_first [] (7 ∷ []) refl in_course-StageRuns (inl refl) (omega arith) refl refl

-- Instance 0 of the launch node 0 waits for nothing yet.
abbrev launching : World Table
launching = record pair {
  derived = λ p.
      if p == 0
      then some (
          launch (record {
            nodes = names;
            instances = (0, instance_of 0 0 []) ∷ [];
            links = [];
            externals = [];
          }))
      else some (executable program_process);
}

launching-IsStartable : (n : ℕ) → n ≢ 0 → IsStartable launching n
unfolding env_sequence_to_env_data
launching-IsStartable n ne = record {
  process = program_process;
  program = record {
    derived = ground arith;
    is_map = ground arith;
    no_handler = ground arith;
    quiet = ground arith;
  };
  envs = [];
  env = refl;
}

start_nodes-Waits_example :
    (v : World Table) × (m : Map ℕ) × (start_nodes table_os 17
        (Instances.startup table_os (start_instance table_os 17 1))
        0
        0
        names
        launching
      ≡ done tt v)
    × Waits v 0 0 m
    × All (λ e. IsMember v 0 0 m e.1) names
    × ((q : ℕ) → All (λ e. e.1 ≢ q) names → v.base q ≡ launching.base q)
    × ((q : ℕ) → All (λ e. e.1 ≢ q) names → lookup q m ≡ none)
unfolding lookup
start_nodes-Waits_example =
    start_nodes-Waits table_os 17 0 launching 0 0 names [] (λ k. (k.next_pid, _, refl))
      (record { node = _; derived = refl; is_map = omega arith; found = refl }) tt
      (((λ e. absurd (omega arith)), tt), (tt, tt))
      (
        launching-IsStartable 1 (λ e. absurd (omega arith)),
        (launching-IsStartable 2 (λ e. absurd (omega arith)), tt),
      )
