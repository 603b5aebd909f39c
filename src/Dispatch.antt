-- ===== src/Dispatch.antt =====
-- The virtual methods and the completion handlers, tied to the classes. The depth bounds how deep
-- calls nest: one for each virtual call or handler that is entered.
pub mod Awaited
pub mod Deaths
pub mod Entry
pub mod Members
pub mod Programs
pub mod Service
pub mod Stages
pub mod Waiting
use arclaunch.Prelude.{
  ℕ, zero, suc, none, some, List, [], ◌∷◌, ◌++◌, Exec, done, undefined, no_fuel,
}
use arclaunch.Os.{Os}
use arclaunch.Node.{external, sub_node_death, proceed}
use arclaunch.Node.Instances
use arclaunch.World.{World, Callback, executable, launch, sequence_node}
use arclaunch.Process
use arclaunch.Process.Wait
use arclaunch.Process.Wait.{Waited}
use arclaunch.Launch
use arclaunch.Sequence
use arclaunch.Socket

module _ {K : Type 0} (os : Os K) (rounds : ℕ) where
  unfoldable mutual
    unfolding Process.start_instance Launch.start_instance Sequence.start_instance
        Socket.start_instance

    pub start_instance : ℕ → ℕ → ℕ → Exec (World K) (Unit {0})
    start_instance zero p inst w = no_fuel
    start_instance (suc depth) p inst w = elim (w.derived p) [
      | none ↦ undefined
      | some (executable x) ↦ Process.start_instance os p inst w
      | some (launch x) ↦
          let launch_start =
            Launch.start_instance os rounds (Instances.startup os (start_instance depth))
              (Instances.finish_instance (handle depth)) in
          elim (w.sockets p) [
            | none ↦ launch_start p inst w
            | some s ↦
                Socket.start_instance os os.net rounds (Instances.startup os (start_instance depth))
                  (Instances.finish_instance (handle depth)) launch_start p inst w
          ]
      | some (sequence_node x) ↦
          Sequence.start_instance os rounds (Instances.startup os (start_instance depth))
            (Instances.finish_instance (handle depth)) p inst w
    ]

    pub handle : ℕ → Callback K
    handle zero h retval node inst w = no_fuel
    handle (suc depth) (external tag) retval node inst w = done tt (record w {
      calls = w.calls ++ record { tag = tag; retval = retval; node = node; inst = inst } ∷ [];
    })
    handle (suc depth) (sub_node_death p i) retval node inst w =
        Launch.on_sub_node_death (Instances.finish_instance (handle depth)) p i retval node inst w
    handle (suc depth) (proceed p i) retval node inst w =
        Sequence.proceed_sequence os rounds (Instances.startup os (start_instance depth))
          (Instances.finish_instance (handle depth)) p i retval w

  -- Node::startup on any node, and the SIGCHLD handler.
  unfoldable pub startup : ℕ → ℕ → Exec (World K) ℕ
  unfolding start_instance
  startup depth p = Instances.startup os (start_instance depth) p

  unfoldable pub reaper : ℕ → ℕ → ℕ → Exec (World K) (Unit {0})
  unfolding handle Process.reaper
  reaper depth reaped retval =
      Process.reaper (Instances.finish_instance (handle depth)) reaped retval

  -- The accepting thread of a SocketNode, until it ends.
  unfoldable pub join_thread : ℕ → ℕ → ℕ → Exec (World K) (Unit {0})
  unfolding start_instance Socket.accept_left
  join_thread depth p inst w =
      Socket.accept_left os os.net rounds (Instances.startup os (start_instance depth))
        (Instances.finish_instance (handle depth)) p inst (os.selects w.kernel p) w

  -- Node::waitForInstance on any node. `answers p inst` is what the calls of
  -- `waitpid` answer while the instance of the program is waited for.
  module _ (answers : ℕ → ℕ → List Waited) where
    unfoldable pub wait_for_instance : ℕ → ℕ → ℕ → Exec (World K) (Unit {0})
    unfolding handle join_thread Socket.wait_for_instance
    wait_for_instance zero p inst w = no_fuel
    wait_for_instance (suc depth) p inst w = elim (w.derived p) [
      | none ↦ undefined
      | some (executable x) ↦
          Wait.wait_for_instance (Instances.finish_instance (handle depth)) p inst (answers p inst)
            w
      | some (launch x) ↦
          let launch_wait = Launch.wait_for_instance (wait_for_instance depth) rounds in
          elim (w.sockets p) [
            | none ↦ launch_wait p inst w
            | some s ↦ Socket.wait_for_instance (join_thread depth p inst) launch_wait p inst w
          ]
      | some (sequence_node x) ↦
          Sequence.wait_for_instance (wait_for_instance depth) rounds p inst w
    ]
