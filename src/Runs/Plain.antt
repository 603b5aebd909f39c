-- ===== src/Runs/Plain.antt =====
-- Relations that leave open which descriptors a node holds and what the kernel does: they are kept
-- by every operation if they are kept by each assignment to the other fields.
pub mod Steps
use arclaunch.Prelude.{
  ℕ, zero, suc, ◌≡◌, refl, ap, sym, ◌+◌, ◌∙◌, subst, Bool, true, false, Option, none, some, List,
  [], ◌∷◌, ◌++◌, Exec, Outcome, done, thrown, exited, no_fuel, undefined, ◌>>=◌, ◌>>◌,
  if◌then◌else◌, arith, Option-cases, Bool-cases, is_some, ◌==◌,
}
use arclaunch.Prelude.Map.{
  Map, IsMap, lookup, insert, erase, lookup-insert, lookup-erase, insert-From, erase-From,
}
use arclaunch.Text.{Text}
use arclaunch.Element.{Linkage}
use arclaunch.NameMap.{find_name}
use arclaunch.Os.{
  Os, Reply, success, busy, failed, Forked, parent, fork_failed, Piped, piped, pipe_failed,
}
use arclaunch.Command.{env_sequence_to_env_data}
use arclaunch.Node.{Node, CompletionHandler}
use arclaunch.Node.Fds.{Local, link_loop, link_fd, pass_fd, pass_fds, close_fds, close_all}
use arclaunch.Node.Instances.{begin_instance, add_instance_completion_handler}
use arclaunch.World.{
  World, Call, Process, SocketNode, LaunchNode, LaunchInstance, SequenceNode, RunningSequence,
  executable, launch, sequence_node, process_of, launch_of, sequence_of, at, set_base, set_derived,
  on_node,
}
use arclaunch.Process
use arclaunch.Launch.{link_nodes, get_node, open_link, close_fd}
use arclaunch.Sequence.{
  running_sequence, on_running, erase_running, emplace, the_running, put_running,
}
use arclaunch.Runs.{
  After, IsRun, After-then, After-bind, After-deref, After-deref_at, After-deref_deref,
}
use arclaunch.Runs.Closed.{Closed, IsLaunch}
use arclaunch.Runs.Fds.{
  OnlyFds, OnlyFds-run, link_fd-After, pass_fd-After, pass_fds-After, close_fds-OnlyFds,
}

-- The maps of a sequence node are ascending.
pub record IsSequence (s : SequenceNode) : Type 0 where
  pub sequences : IsMap s.sequences
  pub fd_maps : (i : ℕ) (r : RunningSequence) → lookup i s.sequences ≡ some r → IsMap r.node.fd_map

module _ {K : Type 0} (R : World K → World K → Type 0) where
  pub record Plain : Type 0 where
    pub same : (w : World K) → R w w
    pub then_run : (w v u : World K) → R w v → R v u → R w u
    pub kernel : (k : K) (w : World K) → R w (record w { kernel = k })
    pub fds :
        (p : ℕ) (m : Map ℕ) (w : World K)
        → (IsMap (w.base p).fd_map → IsMap m)
        → R w (set_base p (record (w.base p) { fd_map = m }) w)
    pub begins : (p inst : ℕ) (w : World K) → R w (set_base p (begin_instance inst (w.base p)) w)
    pub ends :
        (p inst : ℕ) (w : World K)
        → R w (set_base p (record (w.base p) { instances = erase inst (w.base p).instances }) w)
    pub awaits :
        (p : ℕ) (h : CompletionHandler) (w : World K)
        → R w (set_base p (add_instance_completion_handler h (w.base p)) w)
    pub calls : (c : Call) (w : World K) → R w (record w { calls = w.calls ++ c ∷ [] })
    pub reaping : (w : World K) → R w (record w { reaping = true })
    pub registers :
        (p pid inst : ℕ) (x : Process) (w : World K)
        → process_of (w.derived p) ≡ some x
        → R w (
            set_derived p
              (executable (record x { pid_instance = insert pid inst x.pid_instance }))
              (record w { running_nodes = insert pid p w.running_nodes }))
    pub reaps :
        (p pid : ℕ) (x : Process) (w : World K)
        → process_of (w.derived p) ≡ some x
        → R w (
            set_derived p
              (executable (record x {
                pid_instance =
                    insert pid (Process.or_zero (lookup pid x.pid_instance)) x.pid_instance;
              }))
              (record w { running_nodes = erase pid w.running_nodes }))
    pub launches :
        (p : ℕ) (l : LaunchNode) (m : Map LaunchInstance) (w : World K)
        → launch_of (w.derived p) ≡ some l
        → (IsLaunch l → IsLaunch (record l { instances = m }))
        → R w (set_derived p (launch (record l { instances = m })) w)
    pub sequences :
        (p : ℕ) (s : SequenceNode) (m : Map RunningSequence) (w : World K)
        → sequence_of (w.derived p) ≡ some s
        → (IsSequence s → IsSequence (record s { sequences = m }))
        → R w (set_derived p (sequence_node (record s { sequences = m })) w)
    pub sockets :
        (p : ℕ) (t : SocketNode) (w : World K)
        → R w (record w { sockets = at w.sockets p (some t) })

module _ {K : Type 0} (os : Os K) (rounds : ℕ) (R : World K → World K → Type 0) (c : Plain R) where
  pub plain-run : IsRun R R
  plain-run = record {
    same = c.same;
    then_run = c.then_run;
    then_throw = c.then_run;
    gives_up = λ w v r. r;
  }

  -- The state after a method of the class Node on the node `p`.
  pub node_fds :
      (p : ℕ) (w : World K) (l : Local K)
      → OnlyFds (record { node = w.base p; kernel = w.kernel }) l
      → R w (record w { base = at w.base p l.node; kernel = l.kernel })
  node_fds p w l f =
      subst (λ n. R w (record w { base = at w.base p n; kernel = l.kernel })) (sym f.rest)
        (c.then_run w _ _ (c.fds p l.node.fd_map w f.is_map) (c.kernel l.kernel _))

  pub on_node-After :
      {A : Type 0} (p : ℕ) (m : Exec (Local K) A) (w : World K)
      → After OnlyFds OnlyFds
          (record { node = w.base p; kernel = w.kernel })
          (m (record { node = w.base p; kernel = w.kernel }))
      → After R R w (on_node p m w)
  on_node-After {A} p m w h = ran (m (record { node = w.base p; kernel = w.kernel })) h
    where
      ran :
          (o : Outcome (Local K) A)
          → After OnlyFds OnlyFds (record { node = w.base p; kernel = w.kernel }) o
          → After R R w (on_node p (λ l. o) w)
      ran (done a l) h = node_fds p w l h
      ran (thrown e l) h = node_fds p w l h
      ran (exited n l) h = node_fds p w l h
      ran undefined h = tt
      ran no_fuel h = tt
