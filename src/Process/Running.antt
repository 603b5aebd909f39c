-- ===== src/Process/Running.antt =====
-- A process from its start to its end, as the maps of ExecutableNode and Node record it.
use arclaunch.Prelude.{ℕ, ◌≡◌, true, some, List, [], ◌∷◌, Exec, done, arith, ◌∙◌, ap}
use arclaunch.Prelude.Map.{IsMap, lookup, insert, erase, lookup-insert, insert-From}
use arclaunch.Text.{Text}
use arclaunch.Command.{env_sequence_to_env_data}
use arclaunch.Os.{Os, parent}
use arclaunch.Node.{CompletionHandler}
use arclaunch.Node.Fds.{close_fds}
use arclaunch.Node.Instances.{
  startup, instance_is_running, begin_instance, finish_instance, run_handlers,
}
use arclaunch.Node.Instances.Startup.{startup_lem, begun, started, closed}
use arclaunch.Process.{start_instance, reaper, reap_process, fork_process}
use arclaunch.World.{World, Process, Callback, executable, at, set_base}

module _ {K : Type 0} where
  -- The process `pid` is that of the instance `j` of the node `n`, for which `hs` wait.
  pub record HasProcess (w : World K) (n j pid : ℕ) (hs : List CompletionHandler) : Type 0 where
    pub process : Process
    pub registered : lookup pid w.running_nodes ≡ some n
    pub is_map : IsMap w.running_nodes
    pub derived : w.derived n ≡ some (executable process)
    pub number : lookup pid process.pid_instance ≡ some j
    pub handlers : lookup j (w.base n).instances ≡ some hs
    pub instances_is_map : IsMap (w.base n).instances

  -- The world after the SIGCHLD handler has noted the end of `pid`.
  abbrev pub reaped : ℕ → ℕ → ℕ → Process → World K → World K
  reaped n j pid x w = record w {
    running_nodes = erase pid w.running_nodes;
    derived =
        at w.derived n
          (some (executable (record x { pid_instance = insert pid j x.pid_instance })));
  }

  abbrev pub without : ℕ → ℕ → World K → World K
  without n j w = set_base n (record (w.base n) { instances = erase j (w.base n).instances }) w

  -- The one handler that waits for the instance is called, and then the instance is gone.
  pub reaper-HasProcess :
      (call : Callback K) (w v : World K) (n j pid retval : ℕ) (h : CompletionHandler)
      (has : HasProcess w n j pid (h ∷ []))
      → (w.base n).on_death ≡ []
      → call h retval n j (reaped n j pid has.process w) ≡ done tt v
      → reaper (finish_instance call) pid retval w ≡ done tt (without n j v)
  unfolding reaper reap_process finish_instance run_handlers instance_is_running
  reaper-HasProcess call w v n j pid retval h has quiet e =
      ground (arith, has.registered, has.derived, has.number, has.handlers, quiet, e)

  module _ (os : Os K) where
    abbrev forked : ℕ → ℕ → ℕ → Process → K → World K → World K
    forked n j pid x k w = record (begun os n j w) {
      kernel = k;
      derived =
          at w.derived n
            (some (executable (record x { pid_instance = insert pid j x.pid_instance })));
      reaping = true;
      running_nodes = insert pid n w.running_nodes;
    }

    -- The world after a successful `startup` of an executable node.
    abbrev pub running : ℕ → ℕ → ℕ → Process → K → World K → World K
    running n j pid x k w = closed os n (forked n j pid x k w)

    pub startup-running :
        (start : ℕ → ℕ → Exec (World K) (Unit {0})) (w : World K) (n pid : ℕ) (k : K) (x : Process)
        (envs : List Text)
        → ((j : ℕ) → start n j (begun os n j w) ≡ start_instance os n j (begun os n j w))
        → w.derived n ≡ some (executable x)
        → env_sequence_to_env_data x.command.env_seq ≡ some envs
        → os.fork w.kernel ≡ parent pid k
        → IsMap (w.base n).instances
        → (j : ℕ) × (startup os start n w ≡ done j (running n j pid x k w))
    unfolding start_instance fork_process
    startup-running start w n pid k x envs same d env f asc =
        let (j, free, e) = startup_lem os start n w asc in
        (j, e ∙ ap (started os n j) (same j ∙ forks j))
      where
        forks : (j : ℕ) → start_instance os n j (begun os n j w) ≡ done tt (forked n j pid x k w)
        forks j = ground (arith, d, env, f)

    pub running-HasProcess :
        (w : World K) (n j pid : ℕ) (k : K) (x : Process)
        → IsMap (w.base n).instances
        → IsMap w.running_nodes
        → HasProcess (running n j pid x k w) n j pid (w.base n).on_instance_death
    unfolding begin_instance close_fds
    running-HasProcess w n j pid k x asc asc' = record {
      process = record x { pid_instance = insert pid j x.pid_instance };
      registered = ground (arith, lookup-insert pid n w.running_nodes pid);
      is_map = insert-From pid 0 n w.running_nodes (omega arith) asc';
      derived = ground arith;
      number = ground (arith, lookup-insert pid j x.pid_instance pid);
      handlers =
          ground (arith, lookup-insert j (w.base n).on_instance_death (w.base n).instances j);
      instances_is_map =
          ground (arith, insert-From j 0 (w.base n).on_instance_death (w.base n).instances);
    }
