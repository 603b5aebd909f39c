-- ===== src/Runs/Accounts/Kept.antt =====
-- Every operation of the library that returns leaves the descriptors accounted for.
use arclaunch.Prelude.{ℕ, ◌≡◌, ◌≢◌, ◌<◌, refl, ◌∙◌, subst, none, some, true, Option, ◌>>=◌, ◌>>◌}
use arclaunch.Prelude.Map.{insert}
use arclaunch.Command.{env_sequence_to_env_data}
use arclaunch.Os.{Os, Posix, Forked, parent, fork_failed, Forks}
use arclaunch.Node.Fds.{link_fd}
use arclaunch.World.{
  World, Process, LaunchNode, Derived, executable, launch, sequence_node, process_of, launch_of,
  sequence_of, at, on_node, modify,
}
use arclaunch.Process
use arclaunch.Runs.WellFormed.{IsWellFormed}
use arclaunch.Runs.WellFormed.Kept.{WellFormed-Plain}
use arclaunch.Runs.Accounts.{IsAccounted, Post, Post-deref}
use arclaunch.Runs.Accounts.Local.{link_fd-Adds}
use arclaunch.Runs.Accounts.Holders.{nodes_hold, other_class_holds}
use arclaunch.Runs.Accounts.Nodes.{assigned, of_node, on_node-Accounted}

process_only : (d : Option Derived) (x : Process) → process_of d ≡ some x → sequence_of d ≡ none
process_only none x e = cc
process_only (some (executable y)) x e = refl
process_only (some (launch y)) x e = cc
process_only (some (sequence_node y)) x e = cc

pub launch_no_sequence :
    (d : Option Derived) (l : LaunchNode) → launch_of d ≡ some l → sequence_of d ≡ none
launch_no_sequence none l e = cc
launch_no_sequence (some (executable y)) l e = cc
launch_no_sequence (some (launch y)) l e = refl
launch_no_sequence (some (sequence_node y)) l e = cc

module _ {K : Type 0} {os : Os K} (px : Posix os) (rounds : ℕ) (enough : px.limit < rounds) where
  module _ (Others : ℕ → Type 0) where
    abbrev pub I : World K → Type 0
    I = IsAccounted px Others

    -- A descriptor of a state that differs in none of the holders.
    pub kernel_assigned :
        (w : World K) (k : K)
        → ((c : ℕ) → px.file k c ≢ none → px.file w.kernel c ≢ none)
        → I w
        → I (record w { kernel = k })
    kernel_assigned w k opened h =
        assigned px rounds Others w (record w { kernel = k }) refl (WellFormed-Plain.kernel k w)
          opened (λ c. nodes_hold w (record w { kernel = k }) c (λ p x. x) refl) h

    pub link_at :
        (p fd ext_fd : ℕ) (w : World K) → I w → Post I (on_node p (link_fd os rounds fd ext_fd) w)
    link_at p fd ext_fd w h =
        on_node-Accounted px rounds Others p (link_fd os rounds fd ext_fd) w
          (link_fd-Adds px rounds enough fd ext_fd (of_node px rounds Others p w)) h

    -- A program node after an assignment to its processes.
    pub process_assigned :
        (w v : World K) (p : ℕ) (x y : Process)
        → process_of (w.derived p) ≡ some x
        → v.base ≡ w.base
        → v.derived ≡ at w.derived p (some (executable y))
        → v.kernel ≡ w.kernel
        → v.sockets ≡ w.sockets
        → (IsWellFormed w → IsWellFormed v)
        → I w
        → I v
    process_assigned w v p x y found base derived kernel sockets well h =
        assigned px rounds Others w v sockets well (λ c o. subst (λ k. px.file k c ≢ none) kernel o)
          (λ c.
            other_class_holds w v c p (executable y) (process_only (w.derived p) x found) base
              derived)
          h

    forked :
        (p inst : ℕ) (x : Process) (v : World K) (o : Forked K)
        → os.fork v.kernel ≡ o
        → Forks px.file v.kernel o
        → process_of (v.derived p) ≡ some x
        → I v
        → Post I (
            (do
              pid ← Process.fork_process os
              modify λ w. record w { running_nodes = insert pid p w.running_nodes }
              Process.put_process p (record x { pid_instance = insert pid inst x.pid_instance }))
              v)
    unfolding Process.fork_process
    forked p inst x v (parent pid k) e same found h =
        let u : World K = record v { kernel = k } in
        let i = kernel_assigned v k (λ c o z. o (same c ∙ z)) h in
        rw (e, ◌>>=◌, Process.fork_process)
          (process_assigned u _ p x _ found refl refl refl refl
            (WellFormed-Plain.registers p pid inst x u found) i)
    forked p inst x v (fork_failed k) e same found h = rw (e, ◌>>=◌, Process.fork_process) tt

    pub forks : (p inst : ℕ) (w : World K) → I w → Post I (Process.start_instance os p inst w)
    unfolding Process.start_instance
    forks p inst w h =
        let v : World K = record w { reaping = true } in
        let i =
          assigned px rounds Others w v refl (WellFormed-Plain.reaping w) (λ c o. o)
            (λ c. nodes_hold w v c (λ p x. x) refl) h in
        Post-deref I (λ u. process_of (u.derived p)) _ v
          λ x e.
            Post-deref I (λ u. env_sequence_to_env_data x.command.env_seq) _ v
              λ envs f. forked p inst x v (os.fork v.kernel) refl (px.fork_lem v.kernel) e i
