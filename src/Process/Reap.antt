-- ===== src/Process/Reap.antt =====
-- From the start of a process to the report of its end.
use arclaunch.Prelude.{
  ℕ, ◌≡◌, refl, true, none, some, List, Exec, done, thrown, fork_error, arith, ◌∙◌, subst,
}
use arclaunch.Prelude.Map.{IsMap, lookup, insert, erase, lookup-insert, lookup-erase, insert-From}
use arclaunch.Text.{Text}
use arclaunch.Command.{env_sequence_to_env_data}
use arclaunch.Os.{Os, Posix, Same, Forks, parent, fork_failed}
use arclaunch.Node.Instances.{startup, instance_is_running, begin_instance}
use arclaunch.Node.Instances.Startup.{IsFirstFree, startup_lem, begun}
use arclaunch.Process.{start_instance, reaper, reap_process, fork_process, or_zero}
use arclaunch.World.{World, Process, executable, at}

module _ {K : Type 0} (os : Os K) where
  module _ (finish : ℕ → ℕ → ℕ → Exec (World K) (Unit {0})) where
    -- A started instance is found again by its process: when the process ends, the SIGCHLD handler
    -- finishes the instance with the process's return value, in a world in which the process is no
    -- longer waited for.
    pub reaper-start_instance :
        (w : World K) (p inst pid retval : ℕ) (k : K) (x : Process) (envs : List Text)
        → w.derived p ≡ some (executable x)
        → env_sequence_to_env_data x.command.env_seq ≡ some envs
        → os.fork w.kernel ≡ parent pid k
        → IsMap w.running_nodes
        → (v : World K) × (u : World K) × (start_instance os p inst w ≡ done tt v)
          × (lookup pid v.running_nodes ≡ some p)
          × (reaper finish pid retval v ≡ finish p inst retval u)
          × (lookup pid u.running_nodes ≡ none)
          × (u.kernel ≡ k)
          × (u.base ≡ w.base)
    unfolding start_instance fork_process reaper reap_process
    reaper-start_instance w p inst pid retval k x envs d env f asc = (
      v,
      u,
      ground (arith, d, env, f),
      registered,
      ground (arith, registered, own),
      gone,
      refl,
      refl,
    )
      where
        y : Process
        y = record x { pid_instance = insert pid inst x.pid_instance }

        v : World K
        v = record w {
          kernel = k;
          derived = at w.derived p (some (executable y));
          reaping = true;
          running_nodes = insert pid p w.running_nodes;
        }

        number : ℕ
        number = or_zero (lookup pid y.pid_instance)

        u : World K
        u = record v {
          derived =
              at v.derived p
                (some (executable (record y { pid_instance = insert pid number y.pid_instance })));
          running_nodes = erase pid v.running_nodes;
        }

        registered : lookup pid v.running_nodes ≡ some p
        registered = ground (arith, lookup-insert pid p w.running_nodes pid)

        own : lookup pid y.pid_instance ≡ some inst
        own = ground (arith, lookup-insert pid inst x.pid_instance pid)

        gone : lookup pid u.running_nodes ≡ none
        gone = ground (
          arith,
          lookup-erase pid pid 0 v.running_nodes
              (insert-From pid 0 p w.running_nodes (omega arith) asc),
        )

  begun-running :
      (w : World K) (p inst : ℕ) → instance_is_running inst ((begun os p inst w).base p) ≡ true
  unfolding instance_is_running begin_instance
  begun-running w p inst =
      ground (arith, lookup-insert inst (w.base p).on_instance_death (w.base p).instances inst)

  begun-fd_map :
      (w : World K) (p inst : ℕ) → ((begun os p inst w).base p).fd_map ≡ (w.base p).fd_map
  unfolding begin_instance
  begun-fd_map w p inst = ground arith

  -- If the fork fails, `startup` throws ForkError, and the new instance stays registered as running
  -- although it has no process. The node's file descriptor map stays as it was, and behind every
  -- descriptor is the open file that was there before: none is closed.
  pub startup-fork_failed :
      (px : Posix os) (w : World K) (p : ℕ) (k : K) (x : Process) (envs : List Text)
      → w.derived p ≡ some (executable x)
      → env_sequence_to_env_data x.command.env_seq ≡ some envs
      → os.fork w.kernel ≡ fork_failed k
      → IsMap (w.base p).instances
      → (inst : ℕ) × (v : World K) × (startup os (start_instance os) p w ≡ thrown fork_error v)
        × IsFirstFree (w.base p) inst
        × (instance_is_running inst (v.base p) ≡ true)
        × ((v.base p).fd_map ≡ (w.base p).fd_map)
        × (v.kernel ≡ k)
        × Same px.file w.kernel v.kernel
        × (v.running_nodes ≡ w.running_nodes)
  unfolding start_instance fork_process
  startup-fork_failed px w p k x envs d env f asc =
      let (inst, free, e) = startup_lem os (start_instance os) p w asc in
      let v : World K = record (begun os p inst w) { kernel = k; reaping = true } in
      (
        inst,
        v,
        e ∙ ground (arith, d, env, f),
        free,
        begun-running w p inst,
        begun-fd_map w p inst,
        refl,
        subst (Forks px.file w.kernel) f (px.fork_lem w.kernel),
        refl,
      )
