-- ===== src/Process/Wait.antt =====
-- src/ExecutableNode.cxx: waitForInstance. What the calls of `waitpid` answer is a list; when it is
-- used up, the call blocks for good.
pub mod Race
use arclaunch.Prelude.{
  ℕ, Option, none, some, List, [], ◌∷◌, Exec, Outcome, done, thrown, exited, undefined, no_fuel,
  ◌>>=◌, ◌>>◌, pure, if◌then◌else◌, ◌==◌,
}
use arclaunch.Prelude.Map.{Map}
use arclaunch.Node.Instances.{instance_is_running}
use arclaunch.Process.{the_process, reap_process, reaper}
use arclaunch.World.{World, Process, deref, process_of}

-- One call of `waitpid`: the return value of the process, or -1. In a call that fails the SIGCHLD
-- handler may have run, for the processes in the list with their return values. Where the call
-- itself reaps the process, the handler's own `wait` is left out: it is taken to find no other child.
pub data Waited : Type 0 where
  ended : (retval : ℕ) → Waited
  failed_wait : (reaps : List (ℕ × ℕ)) → Waited

-- The loop over `pidInstance`: the last process of the instance, if there is one.
unfoldable pub find_pid : ℕ → Map ℕ → Option ℕ → Option ℕ
find_pid inst [] found = found
find_pid inst ((pid, i) ∷ m) found = find_pid inst m (if i == inst then some pid else found)

module _ {K : Type 0} (finish_instance : ℕ → ℕ → ℕ → Exec (World K) (Unit {0})) where
  unfoldable pub run_reaper : List (ℕ × ℕ) → Exec (World K) (Unit {0})
  unfolding reaper
  run_reaper [] = pure tt
  run_reaper ((pid, retval) ∷ reaps) = do reaper finish_instance pid retval; run_reaper reaps

  unfoldable pub wait_round : ℕ → Option ℕ → Waited → Exec (World K) (Unit {0})
  unfolding reap_process run_reaper
  wait_round p none x w = undefined
  wait_round p (some pid) (ended retval) w = reap_process finish_instance p pid retval w
  wait_round p (some pid) (failed_wait reaps) w = run_reaper reaps w

  unfoldable pub wait_loop : ℕ → ℕ → Option ℕ → List Waited → Exec (World K) (Unit {0})
  unfolding wait_round
  wait_loop p inst pid [] w = if instance_is_running inst (w.base p) then no_fuel else done tt w
  wait_loop p inst pid (x ∷ xs) w =
      let rest = wait_loop p inst pid xs in
      if instance_is_running inst (w.base p) then (do wait_round p pid x; rest) w else done tt w

  unfoldable pub wait_for_instance : ℕ → ℕ → List Waited → Exec (World K) (Unit {0})
  unfolding wait_loop
  wait_for_instance p inst xs = do
    x ← the_process p
    wait_loop p inst (find_pid inst x.pid_instance none) xs
