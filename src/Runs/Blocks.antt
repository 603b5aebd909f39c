-- ===== src/Runs/Blocks.antt =====
-- The blocking waits keep a closed relation, whatever waitpid answers.
use arclaunch.Prelude.{
  ℕ, zero, suc, ◌≡◌, refl, Bool, true, false, Option, none, some, List, [], ◌∷◌, Exec, done,
  no_fuel, if◌then◌else◌,
}
use arclaunch.Prelude.Map.{Map}
use arclaunch.Os.{Os}
use arclaunch.Node.{CompletionHandler}
use arclaunch.Node.Instances
use arclaunch.Node.Instances.{instance_is_running, finish_instance}
use arclaunch.World.{
  World, Derived, LaunchNode, SocketNode, executable, launch, sequence_node, process_of,
}
use arclaunch.Process.{reaper}
use arclaunch.Process.Wait
use arclaunch.Process.Wait.{Waited, ended, failed_wait, find_pid, run_reaper, wait_round, wait_loop}
use arclaunch.Launch
use arclaunch.Launch.{first_of}
use arclaunch.Sequence
use arclaunch.Dispatch
use arclaunch.Runs.{After, After-bind, After-deref, After-if}
use arclaunch.Runs.Closed.{Closed}
use arclaunch.Runs.Sockets.{socket_wait-After}
use arclaunch.Runs.Calls.{join-After, reap-After, reaper-After, dispatch_finish-After}
use arclaunch.Runs.Launches.{get_instance-After}
use arclaunch.Runs.Sequences.{get_running-After}

module _ {K : Type 0} (os : Os K) (rounds : ℕ) (R T : World K → World K → Type 0)
    (c : Closed os rounds R T) where
  -- A loop that goes on while the instance runs, when its fuel is spent.
  stopped : (b : Bool) (w : World K) → After R T w (if b then no_fuel else done tt w)
  stopped true w = tt
  stopped false w = c.run.same w

  module _ (finish : ℕ → ℕ → ℕ → Exec (World K) (Unit {0}))
      (finishes : (p inst retval : ℕ) (w : World K) → After R T w (finish p inst retval w)) where
    run_reaper-After : (xs : List (ℕ × ℕ)) (w : World K) → After R T w (run_reaper finish xs w)
    unfolding run_reaper
    run_reaper-After [] w = c.run.same w
    run_reaper-After ((pid, retval) ∷ xs) w =
        After-bind R T c.run (reaper finish pid retval) _ w
          (reaper-After os rounds R T c finish finishes pid retval w)
          (λ a t e. run_reaper-After xs t)

    wait_round-After :
        (p : ℕ) (pid : Option ℕ) (x : Waited) (w : World K)
        → After R T w (wait_round finish p pid x w)
    unfolding wait_round
    wait_round-After p none x w = tt
    wait_round-After p (some pid) (ended retval) w =
        reap-After os rounds R T c finish finishes p pid retval w
    wait_round-After p (some pid) (failed_wait reaps) w = run_reaper-After reaps w

    wait_loop-After :
        (p inst : ℕ) (pid : Option ℕ) (xs : List Waited) (w : World K)
        → After R T w (wait_loop finish p inst pid xs w)
    unfolding wait_loop
    wait_loop-After p inst pid [] w = stopped (instance_is_running inst (w.base p)) w
    wait_loop-After p inst pid (x ∷ xs) w =
        After-if R T c.run (instance_is_running inst (w.base p)) _ _ w
          (After-bind R T c.run (wait_round finish p pid x) _ w (wait_round-After p pid x w)
            (λ a t e. wait_loop-After p inst pid xs t))
          (c.run.same w)

    process_wait-After :
        (p inst : ℕ) (xs : List Waited) (w : World K)
        → After R T w (Wait.wait_for_instance finish p inst xs w)
    unfolding Wait.wait_for_instance
    process_wait-After p inst xs w =
        After-deref R T (λ v. process_of (v.derived p)) _ w
          (λ x e. wait_loop-After p inst (find_pid inst x.pid_instance none) xs w)

  module _ (wait : ℕ → ℕ → Exec (World K) (Unit {0}))
      (waits : (p inst : ℕ) (w : World K) → After R T w (wait p inst w)) where
    launch_wait-After :
        (fuel p inst : ℕ) (w : World K) → After R T w (Launch.wait_for_instance wait fuel p inst w)
    unfolding Launch.wait_for_instance
    launch_wait-After zero p inst w = stopped (instance_is_running inst (w.base p)) w
    launch_wait-After (suc fuel) p inst w =
        After-if R T c.run (instance_is_running inst (w.base p)) _ _ w
          (get_instance-After os rounds R T c p inst _ w λ l x e f.
            After-deref R T (λ v. first_of x.node_instances) _ w
              λ y g.
                After-bind R T c.run (wait y.0 y.1) _ w (waits y.0 y.1 w)
                  (λ a t h. launch_wait-After fuel p inst t))
          (c.run.same w)

    sequence_wait-After :
        (fuel p inst : ℕ) (w : World K)
        → After R T w (Sequence.wait_for_instance wait fuel p inst w)
    unfolding Sequence.wait_for_instance
    sequence_wait-After zero p inst w = stopped (instance_is_running inst (w.base p)) w
    sequence_wait-After (suc fuel) p inst w =
        After-if R T c.run (instance_is_running inst (w.base p)) _ _ w
          (get_running-After os rounds R T c p inst _ w λ s r e f.
            After-deref R T (λ v. r.current_node) _ w
              λ node g.
                After-deref R T (λ v. r.current_stage_inst_num) _ w
                  λ number g.
                    After-bind R T c.run (wait node number) _ w (waits node number w)
                      (λ a t h. sequence_wait-After fuel p inst t))
          (c.run.same w)

    pub wait_for-After : (fuel p : ℕ) (w : World K) → After R T w (Instances.wait_for wait fuel p w)
    unfolding Instances.wait_for
    wait_for-After zero p w = stopped (Instances.is_running (w.base p)) w
    wait_for-After (suc fuel) p w = next (wait_for-After fuel p) (w.base p).instances refl
      where
        next :
            ((v : World K) → After R T v (Instances.wait_for wait fuel p v))
            → (m : Map (List CompletionHandler)) → (w.base p).instances ≡ m
            → After R T w (Instances.wait_for wait (suc fuel) p w)
        next rest [] e = rw (e, Instances.wait_for) (c.run.same w)
        next rest ((inst, hs) ∷ m) e =
            rw (e, Instances.wait_for)
              (After-bind R T c.run (wait p inst) _ w (waits p inst w) (λ a t f. rest t))

  module _ (answers : ℕ → ℕ → List Waited) where
    pub dispatch_wait-After :
        (depth p inst : ℕ) (w : World K)
        → After R T w (Dispatch.wait_for_instance os rounds answers depth p inst w)
    unfolding Dispatch.wait_for_instance
    dispatch_wait-After zero p inst w = tt
    dispatch_wait-After (suc depth) p inst w =
        virtual (dispatch_wait-After depth) (w.derived p) refl
      where
        group :
            ((p inst : ℕ) (w : World K)
              → After R T w (Dispatch.wait_for_instance os rounds answers depth p inst w))
            → (x : LaunchNode) (o : Option SocketNode) → w.derived p ≡ some (launch x)
            → w.sockets p ≡ o
            → After R T w (Dispatch.wait_for_instance os rounds answers (suc depth) p inst w)
        group k x none e f =
            rw (e, f, Dispatch.wait_for_instance) (launch_wait-After _ k rounds p inst w)
        group k x (some s) e f =
            rw (e, f, Dispatch.wait_for_instance)
              (socket_wait-After os rounds R T c _ _ (join-After os rounds R T c depth p inst)
                (launch_wait-After _ k rounds) p inst w)

        virtual :
            ((p inst : ℕ) (w : World K)
              → After R T w (Dispatch.wait_for_instance os rounds answers depth p inst w))
            → (d : Option Derived) → w.derived p ≡ d
            → After R T w (Dispatch.wait_for_instance os rounds answers (suc depth) p inst w)
        virtual k none e = rw (e, Dispatch.wait_for_instance) tt
        virtual k (some (executable x)) e =
            rw (e, Dispatch.wait_for_instance)
              (process_wait-After _ (dispatch_finish-After os rounds R T c depth) p inst
                (answers p inst) w)
        virtual k (some (launch x)) e = group k x (w.sockets p) e refl
        virtual k (some (sequence_node x)) e =
            rw (e, Dispatch.wait_for_instance) (sequence_wait-After _ k rounds p inst w)
