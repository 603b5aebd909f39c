-- ===== src/Runs/Events.antt =====
-- What can happen to a running library: calls of its public methods, the end of a process, and a
-- round of the accepting thread of a socket node. The calls that throw leave a state too.
use arclaunch.Prelude.{
  ℕ, ◌≡◌, subst, Bool, Option, ◌>>=◌, List, Exec, done, thrown, Exception, ◌>>◌, pure,
}
use arclaunch.Os.{Os}
use arclaunch.Node.{external}
use arclaunch.Node.Fds.{link_fd}
use arclaunch.Node.Instances
use arclaunch.Node.Instances.{add_completion_handler, add_instance_completion_handler}
use arclaunch.Socket.{the_socket, accept_fds}
use arclaunch.World.{World, set_base, on_node, modify}
use arclaunch.Process.Wait.{Waited}
use arclaunch.Dispatch
use arclaunch.Runs.{After}

pub data Event : Type 0 where
  start_node : (p : ℕ) → Event
  child_ended : (pid retval : ℕ) → Event
  wait_node : (answers : ℕ → ℕ → List Waited) (p : ℕ) → Event
  add_handler : (p tag : ℕ) → Event
  add_instance_handler : (p tag : ℕ) → Event
  link : (p fd ext_fd : ℕ) → Event
  accept_round : (p : ℕ) (ready : ℕ → Bool) (num : Option ℕ) → Event

module _ {K : Type 0} (os : Os K) (rounds depth : ℕ) where
  unfoldable pub perform : Event → Exec (World K) (Unit {0})
  perform (start_node p) = do Dispatch.startup os rounds depth p; pure tt
  perform (child_ended pid retval) = Dispatch.reaper os rounds depth pid retval
  perform (wait_node answers p) =
      Instances.wait_for (Dispatch.wait_for_instance os rounds answers depth) rounds p
  perform (add_handler p tag) =
      modify λ w. set_base p (add_completion_handler (external tag) (w.base p)) w
  perform (add_instance_handler p tag) =
      modify λ w. set_base p (add_instance_completion_handler (external tag) (w.base p)) w
  perform (link p fd ext_fd) = on_node p (link_fd os rounds fd ext_fd)
  perform (accept_round p ready num) = do
    s ← the_socket p
    accept_fds os os.net rounds (Dispatch.startup os rounds depth) p ready num s.fds

  -- The event may leave the state `v`.
  pub data Step (w v : World K) : Type 0 where
    returns : (e : Event) → perform e w ≡ done tt v → Step w v
    throws : (e : Event) (x : Exception) → perform e w ≡ thrown x v → Step w v

  pub data Reach (w : World K) : World K → Type 0 where
    here : Reach w w
    next : {v u : World K} → Reach w v → Step v u → Reach w u

  -- A relation that every event keeps holds between a state and all that are reached from it.
  pub Reach-After :
      (R : World K → World K → Type 0)
      → ((w : World K) → R w w)
      → ((w v u : World K) → R w v → R v u → R w u)
      → ((e : Event) (w : World K) → After R R w (perform e w))
      → {w v : World K} → Reach w v
      → R w v
  Reach-After R same then_run keeps {w} here = same w
  Reach-After R same then_run keeps {w} (next {v} {u} r (returns e f)) =
      then_run w v u (Reach-After R same then_run keeps r)
        (subst (λ o. After R R v o) f (keeps e v))
  Reach-After R same then_run keeps {w} (next {v} {u} r (throws e x f)) =
      then_run w v u (Reach-After R same then_run keeps r)
        (subst (λ o. After R R v o) f (keeps e v))
