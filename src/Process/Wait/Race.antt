-- ===== src/Process/Wait/Race.antt =====
-- The SIGCHLD handler and waitForInstance both wait for the same process.
use arclaunch.Prelude.{
  ℕ, ◌≡◌, refl, true, false, Option, Exec, none, some, List, [], ◌∷◌, ◌++◌, map, done, arith,
}
use arclaunch.Prelude.Map.{lookup, lookup-erase}
use arclaunch.Node.{external}
use arclaunch.Node.Instances.{instance_is_running, finish_instance}
use arclaunch.Node.Instances.Finish.{call_of, finished, finish_instance-finished, Notes}
use arclaunch.Process.{reap_process, reaper}
use arclaunch.Process.Running.{HasProcess, reaped}
use arclaunch.Process.Wait.{
  Waited, ended, failed_wait, find_pid, wait_for_instance, wait_loop, wait_round, run_reaper,
}
use arclaunch.World.{World, Callback}

module _ {K : Type 0} where
  reap_process-finished :
      (call : Callback K) (w : World K) (n j pid retval : ℕ) (general own : List ℕ)
      → Notes call
      → (has : HasProcess w n j pid (map external own)) → (w.base n).on_death ≡ map external general
      → reap_process (finish_instance call) n pid retval w
        ≡ done tt (finished retval n j (general ++ own) (reaped n j pid has.process w))
  unfolding reap_process
  reap_process-finished call w n j pid retval general own notes has eg = ground (
    arith,
    has.derived,
    has.number,
    finish_instance-finished call retval n j general own (reaped n j pid has.process w) notes eg
        has.handlers,
  )

  module _ (finish : ℕ → ℕ → ℕ → Exec (World K) (Unit {0})) where
    wait_loop_stops :
        (v : World K) (n j : ℕ) (pid : Option ℕ) (xs : List Waited)
        → instance_is_running j (v.base n) ≡ false
        → wait_loop finish n j pid xs v ≡ done tt v
    unfolding wait_loop
    wait_loop_stops v n j pid [] e = rw e
    wait_loop_stops v n j pid (x ∷ xs) e = rw e

    pub wait_loop_once :
        (w v : World K) (n j : ℕ) (pid : Option ℕ) (x : Waited) (xs : List Waited)
        → instance_is_running j (w.base n) ≡ true
        → wait_round finish n pid x w ≡ done tt v
        → instance_is_running j (v.base n) ≡ false
        → wait_loop finish n j pid (x ∷ xs) w ≡ done tt v
    unfolding wait_loop
    wait_loop_once w v n j pid x xs up e down =
        ground (arith, up, e, wait_loop_stops v n j pid xs down)

  module _ (call : Callback K) (w : World K) (n j pid retval : ℕ) (general own : List ℕ)
      (notes : Notes call) (has : HasProcess w n j pid (map external own))
      (quiet : (w.base n).on_death ≡ map external general) where
    abbrev after : World K
    after = finished retval n j (general ++ own) (reaped n j pid has.process w)

    running_before : instance_is_running j (w.base n) ≡ true
    unfolding instance_is_running
    running_before = ground (arith, has.handlers)

    running_after : instance_is_running j (after.base n) ≡ false
    unfolding instance_is_running
    running_after = ground (arith, lookup-erase j j 0 (w.base n).instances has.instances_is_map)

    round_ended : wait_round (finish_instance call) n (some pid) (ended retval) w ≡ done tt after
    unfolding wait_round
    round_ended = reap_process-finished call w n j pid retval general own notes has quiet

    round_failed :
        wait_round (finish_instance call) n (some pid) (failed_wait ((pid, retval) ∷ [])) w
        ≡ done tt after
    unfolding wait_round run_reaper reaper
    round_failed = ground (
      arith,
      has.registered,
      reap_process-finished call w n j pid retval general own notes has quiet,
    )

    waits :
        (x : Waited) (xs : List Waited)
        → find_pid j has.process.pid_instance none ≡ some pid
        → wait_round (finish_instance call) n (some pid) x w ≡ done tt after
        → wait_for_instance (finish_instance call) n j (x ∷ xs) w ≡ done tt after
    unfolding wait_for_instance
    waits x xs last e = ground (
      arith,
      has.derived,
      last,
      wait_loop_once (finish_instance call) w after n j (some pid) x xs running_before e
          running_after,
    )

    -- A process of a node with users' handlers only, which is the last that the node has for the
    -- instance: whether waitForInstance gets its return value or the SIGCHLD handler takes it while
    -- waitForInstance is blocked, waitForInstance returns in the same state. The handlers of the node
    -- and of the instance have been called once each, the instance is not running, and the process is
    -- not waited for.
    pub wait_for_instance-HasProcess :
        (xs : List Waited)
        → find_pid j has.process.pid_instance none ≡ some pid
        → (v : World K) × (wait_for_instance (finish_instance call) n j (ended retval ∷ xs) w
            ≡ done tt v)
          × (wait_for_instance (finish_instance call) n j (failed_wait ((pid, retval) ∷ []) ∷ xs) w
              ≡ done tt v)
          × (v.calls ≡ w.calls ++ map (call_of retval n j) (general ++ own))
          × (instance_is_running j (v.base n) ≡ false)
          × (lookup pid v.running_nodes ≡ none)
    wait_for_instance-HasProcess xs last = (
      after,
      waits (ended retval) xs last round_ended,
      waits (failed_wait ((pid, retval) ∷ [])) xs last round_failed,
      refl,
      running_after,
      ground (arith, lookup-erase pid pid 0 w.running_nodes has.is_map),
    )
