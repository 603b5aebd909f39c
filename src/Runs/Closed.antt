-- ===== src/Runs/Closed.antt =====
-- The steps that the operations of the library are made of, and the relations that all of them
-- keep: then every virtual call and every handler keeps them, at any depth.
use arclaunch.Prelude.{ℕ, ◌≡◌, some, [], ◌∷◌, ◌++◌, done}
use arclaunch.Prelude.Map.{Map, IsMap, lookup, insert, erase}
use arclaunch.Element.{Linkage}
use arclaunch.Os.{Os}
use arclaunch.Node.{CompletionHandler}
use arclaunch.Node.Fds.{close_fds, pass_fd, pass_fds}
use arclaunch.Node.Instances.{begin_instance, add_instance_completion_handler}
use arclaunch.World.{
  World, Call, Process, SocketNode, at, LaunchNode, LaunchInstance, SequenceNode, RunningSequence,
  executable, launch, sequence_node, process_of, launch_of, sequence_of, set_base, set_derived,
  on_node,
}
use arclaunch.Process
use arclaunch.Launch.{link_nodes}
use arclaunch.Socket.{start_accepting, take_connection}
use arclaunch.Sequence.{running_sequence, on_running, erase_running, emplace}
use arclaunch.Runs.{After, IsRun}

-- The maps of a launch node are ascending.
pub record IsLaunch (l : LaunchNode) : Type 0 where
  pub instances : IsMap l.instances
  pub nodes : (i : ℕ) (x : LaunchInstance) → lookup i l.instances ≡ some x → IsMap x.node_instances

module _ {K : Type 0} (os : Os K) (rounds : ℕ) (R T : World K → World K → Type 0) where
  pub record Closed : Type 0 where
    pub run : IsRun R T
    -- The class Node: a new instance, the end of one, and the handler that waits for the next.
    pub begins : (p inst : ℕ) (w : World K) → R w (set_base p (begin_instance inst (w.base p)) w)
    pub ends :
        (p inst : ℕ) (w : World K)
        → R w (set_base p (record (w.base p) { instances = erase inst (w.base p).instances }) w)
    pub awaits :
        (p : ℕ) (h : CompletionHandler) (w : World K)
        → R w (set_base p (add_instance_completion_handler h (w.base p)) w)
    -- A call of a user's handler.
    pub calls : (c : Call) (w : World K) → R w (record w { calls = w.calls ++ c ∷ [] })
    -- Descriptors.
    pub closes : (p : ℕ) (w : World K) → After R T w (on_node p (λ l. done tt (close_fds os l)) w)
    pub links : (p : ℕ) (x : Linkage) (w : World K) → After R T w (link_nodes os rounds p x w)
    pub passes :
        (p : ℕ) (m : Map ℕ) (fd child_fd : ℕ) (w : World K)
        → After R T w (on_node p (pass_fd os rounds m fd child_fd) w)
    pub passes_all :
        (p : ℕ) (m : Map ℕ) (w : World K) → After R T w (on_node p (pass_fds os rounds m) w)
    pub passes_running :
        (p inst : ℕ) (m : Map ℕ) (w : World K)
        → After R T w (on_running p inst (pass_fds os rounds m) w)
    pub erases_running : (p inst : ℕ) (w : World K) → After R T w (erase_running os rounds p inst w)
    -- Processes.
    pub forks : (p inst : ℕ) (w : World K) → After R T w (Process.start_instance os p inst w)
    pub reaps :
        (p pid : ℕ) (x : Process) (w : World K)
        → process_of (w.derived p) ≡ some x
        → R w (
            set_derived p
              (executable (record x {
                pid_instance =
                    insert pid (Process.or_zero (lookup pid x.pid_instance)) x.pid_instance;
              }))
              (record w { running_nodes = erase pid w.running_nodes }))
    -- The map of a launch node.
    pub launches :
        (p : ℕ) (l : LaunchNode) (m : Map LaunchInstance) (w : World K)
        → launch_of (w.derived p) ≡ some l
        → (IsLaunch l → IsLaunch (record l { instances = m }))
        → R w (set_derived p (launch (record l { instances = m })) w)
    -- A socket node: the accepting sockets, a connection, and what it keeps.
    pub listens :
        (p inst : ℕ) (w : World K) → After R T w (start_accepting os os.net rounds p inst w)
    pub connects :
        (p acc_sock : ℕ) (w : World K) → After R T w (take_connection os os.net rounds p acc_sock w)
    pub sockets :
        (p : ℕ) (s t : SocketNode) (w : World K)
        → w.sockets p ≡ some s
        → R w (record w { sockets = at w.sockets p (some t) })
    -- The map of a sequence node: a new running sequence, and one that keeps its descriptors.
    pub starts :
        (p inst : ℕ) (s : SequenceNode) (w : World K)
        → sequence_of (w.derived p) ≡ some s
        → R w (
            set_derived p
              (sequence_node
                (record s { sequences = emplace inst (running_sequence p) s.sequences }))
              w)
    pub runs :
        (p inst : ℕ) (s : SequenceNode) (r t : RunningSequence) (w : World K)
        → sequence_of (w.derived p) ≡ some s
        → lookup inst s.sequences ≡ some r
        → t.node ≡ r.node
        → R w (set_derived p (sequence_node (record s { sequences = insert inst t s.sequences })) w)
