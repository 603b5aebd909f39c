-- ===== src/Samples/Lifetimes.antt =====
-- Instances, launches, sequences and processes at concrete worlds.
use arclaunch.Prelude.{ℕ, ◌≡◌, refl, true, some, [], thrown, fork_error}
use arclaunch.Os.{Os, Posix, Same, fork_failed}
use arclaunch.Os.Table.{Table, table_os, table_posix}
use arclaunch.Node.Instances.{startup, instance_is_running}
use arclaunch.Node.Instances.Startup.{IsFirstFree}
use arclaunch.Process.{start_instance}
use arclaunch.Command.{env_sequence_to_env_data}
use arclaunch.Process.Reap.{startup-fork_failed}
use arclaunch.World.{World, Process}
use arclaunch.Samples.{kernel, world, program}

abbrev program_process : Process
program_process = record {
  command = record { path_seq = []; arg_seq = []; env_seq = [] };
  pid_instance = [];
}

abbrev programs : World Table
programs = world λ p. some program

-- A kernel that is out of processes.
abbrev full_os : Os Table
full_os = record table_os { fork = λ k. fork_failed k }

abbrev full_posix : Posix full_os
full_posix = record {
  file = table_posix.file;
  limit = table_posix.limit;
  open_lem = table_posix.open_lem;
  open-limit = table_posix.open-limit;
  flags_closed = table_posix.flags_closed;
  dup3_lem = table_posix.dup3_lem;
  dup3-limit = table_posix.dup3-limit;
  dup2_lem = table_posix.dup2_lem;
  close_target = table_posix.close_target;
  close_others = table_posix.close_others;
  pipe2_lem = table_posix.pipe2_lem;
  fork_lem = λ k c. refl;
}

startup-fork_failed_example :
    (inst : ℕ) × (v : World Table) × (startup full_os (start_instance full_os) 1 programs
      ≡ thrown fork_error v)
    × IsFirstFree (programs.base 1) inst
    × (instance_is_running inst (v.base 1) ≡ true)
    × ((v.base 1).fd_map ≡ [])
    × (v.kernel ≡ kernel)
    × Same full_posix.file kernel v.kernel
    × (v.running_nodes ≡ [])
unfolding env_sequence_to_env_data
startup-fork_failed_example =
    startup-fork_failed full_os full_posix programs 1 kernel program_process [] refl refl refl tt
