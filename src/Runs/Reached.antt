-- ===== src/Runs/Reached.antt =====
-- What holds in every state that the library can reach, from whatever it is started.
use arclaunch.Prelude.{ℕ, refl}
use arclaunch.Os.{Os}
use arclaunch.Node.{external}
use arclaunch.Node.Fds.{link_fd}
use arclaunch.Node.Instances.{add_completion_handler}
use arclaunch.World.{World, set_base}
use arclaunch.Dispatch
use arclaunch.Runs.{After, After-bind, After-deref}
use arclaunch.Runs.Sockets.{accept_fds-After}
use arclaunch.Runs.Plain.{Plain, plain-run, on_node-After}
use arclaunch.Runs.Plain.Steps.{Plain-Closed}
use arclaunch.Runs.Fds.{link_fd-After}
use arclaunch.Runs.Calls.{dispatch_startup-After, dispatch_reaper-After}
use arclaunch.Runs.Blocks.{dispatch_wait-After, wait_for-After}
use arclaunch.Runs.WellFormed.{IsWellFormed}
use arclaunch.Runs.WellFormed.Kept.{WellFormed-Plain, set_base-IsWellFormed}
use arclaunch.Runs.Shape.{SameShape, Shape-Plain, unchanged}
use arclaunch.Runs.Events.{
  Event, start_node, child_ended, wait_node, add_handler, add_instance_handler, link, accept_round,
  perform, Reach, Reach-After,
}

module _ {K : Type 0} (os : Os K) (rounds depth : ℕ) where
  perform-After :
      (R : World K → World K → Type 0)
      → Plain R
      → ((p tag : ℕ) (w : World K)
          → R w (set_base p (add_completion_handler (external tag) (w.base p)) w))
      → (e : Event) (w : World K) → After R R w (perform os rounds depth e w)
  unfolding perform
  perform-After R c h (start_node p) w =
      After-bind R R (plain-run os rounds R c) (Dispatch.startup os rounds depth p) _ w
        (dispatch_startup-After os rounds R R (Plain-Closed os rounds R c) depth p w)
        (λ a t e. c.same t)
  perform-After R c h (child_ended pid retval) w =
      dispatch_reaper-After os rounds R R (Plain-Closed os rounds R c) depth pid retval w
  perform-After R c h (wait_node answers p) w =
      wait_for-After os rounds R R (Plain-Closed os rounds R c) _
        (dispatch_wait-After os rounds R R (Plain-Closed os rounds R c) answers depth) rounds p w
  perform-After R c h (add_handler p tag) w = h p tag w
  perform-After R c h (add_instance_handler p tag) w = c.awaits p (external tag) w
  perform-After R c h (link p fd ext_fd) w =
      on_node-After os rounds R c p (link_fd os rounds fd ext_fd) w
        (link_fd-After os rounds fd ext_fd (record { node = w.base p; kernel = w.kernel }))
  perform-After R c h (accept_round p ready num) w =
      let closed = Plain-Closed os rounds R c in
      After-deref R R (λ v. v.sockets p) _ w
        λ s e.
          accept_fds-After os rounds R R closed (Dispatch.startup os rounds depth)
            (dispatch_startup-After os rounds R R closed depth) p ready num s.fds w

  -- In every state that is reached from a well-formed one, by starting nodes, by the ends of
  -- processes, by waiting, by adding handlers, by linking descriptors and by the connections that
  -- socket nodes accept, in any order, whichever of these throw and however deep the nodes nest:
  -- the maps of all objects are ascending, and each process of `running_nodes` is known to the
  -- program node that it belongs to.
  pub Reach-IsWellFormed :
      {w v : World K} → IsWellFormed w → Reach os rounds depth w v → IsWellFormed v
  unfolding add_completion_handler
  Reach-IsWellFormed h r =
      Reach-After os rounds depth (λ w v. IsWellFormed w → IsWellFormed v) (λ w h. h)
        (λ w v u f g h. g (f h))
        (perform-After _ WellFormed-Plain λ p tag w h.
          set_base-IsWellFormed w p (add_completion_handler (external tag) (w.base p)) (λ g. g)
            (λ g. g) h)
        r h

  -- In every state that is reached from a given one, each node is the program, group or sequence that
  -- it was, with the command, the nodes, the links and the order that it had (of a socket node, what
  -- it has as a group); and the calls of users' handlers that have been made stand
  -- unchanged at the head of the calls.
  pub Reach-SameShape : {w v : World K} → Reach os rounds depth w v → SameShape w v
  unfolding add_completion_handler
  Reach-SameShape r =
      Reach-After os rounds depth SameShape Shape-Plain.same Shape-Plain.then_run
        (perform-After SameShape Shape-Plain λ p tag w.
          unchanged w (set_base p (add_completion_handler (external tag) (w.base p)) w) refl refl)
        r
