-- ===== src/Runs/Plain/Steps.antt =====
-- Relations kept by each assignment are kept by every operation.
use arclaunch.Prelude.{
  ℕ, ◌≡◌, refl, sym, ◌∙◌, subst, true, some, Exec, Outcome, done, thrown, exited, no_fuel,
  undefined, ◌>>=◌, ◌>>◌, arith, Bool-cases, inl, inr, throw, is_some, Option, none, List, [], ◌∷◌,
  pure, if◌then◌else◌,
}
use arclaunch.Prelude.Map.{
  Map, IsMap, lookup, insert, erase, lookup-insert, lookup-erase, insert-From, erase-From,
}
use arclaunch.Element.{Linkage}
use arclaunch.NameMap.{find_name}
use arclaunch.Os.{Os, Forked, parent, fork_failed, Piped, piped, pipe_failed}
use arclaunch.Command.{env_sequence_to_env_data}
use arclaunch.Node.Fds.{Local, link_fd, pass_fd, pass_fds, close_fds, close_all}
use arclaunch.World.{
  World, Process, SequenceNode, SocketNode, RunningSequence, process_of, launch_of, sequence_of,
  on_node, modify,
}
use arclaunch.Process
use arclaunch.Text.{Text, text_eq, codes}
use arclaunch.Socket.{
  prepare_accept, prepare_loop, start_accepting, take_connection, link_sockets, put_socket,
}
use arclaunch.Launch.{link_nodes, get_node, open_link}
use arclaunch.Sequence.{
  running_sequence, on_running, erase_running, emplace, the_running, put_running,
}
use arclaunch.Runs.{
  After, IsRun, After-then, After-bind, After-bind_at, After-deref, After-deref_at,
  After-deref_deref, After-choice,
}
use arclaunch.Runs.Closed.{Closed}
use arclaunch.Runs.Fds.{OnlyFds, link_fd-After, pass_fd-After, pass_fds-After, close_fds-OnlyFds}
use arclaunch.Runs.Plain.{IsSequence, Plain, plain-run, node_fds, on_node-After}

pub insert-IsSequence :
    (s : SequenceNode) (inst : ℕ) (r : RunningSequence)
    → (IsSequence s → IsMap r.node.fd_map)
    → IsSequence s
    → IsSequence (record s { sequences = insert inst r s.sequences })
insert-IsSequence s inst r m h = record {
  sequences = insert-From inst 0 r s.sequences (omega arith) h.sequences;
  fd_maps = λ i t e. ground (arith, lookup-insert inst r s.sequences i, h.fd_maps i t, m h);
}

pub erase-IsSequence :
    (s : SequenceNode) (inst : ℕ)
    → IsSequence s
    → IsSequence (record s { sequences = erase inst s.sequences })
erase-IsSequence s inst h = record {
  sequences = erase-From inst 0 s.sequences h.sequences;
  fd_maps = λ i r e. ground (arith, lookup-erase inst i 0 s.sequences, h.fd_maps i r);
}

pub emplace-IsSequence :
    (s : SequenceNode) (inst p : ℕ)
    → IsSequence s
    → IsSequence (record s { sequences = emplace inst (running_sequence p) s.sequences })
unfolding emplace running_sequence
emplace-IsSequence s inst p h = elim (Bool-cases (is_some (lookup inst s.sequences))) [
  | inl e ↦ rw e h
  | inr e ↦ rw e (insert-IsSequence s inst (running_sequence p) (λ h. tt) h)
]

module _ {K : Type 0} (os : Os K) (rounds : ℕ) (R : World K → World K → Type 0) (c : Plain R) where
  run : IsRun R R
  run = plain-run os rounds R c

  link_at :
      (p fd ext_fd : ℕ) (w : World K) → After R R w (on_node p (link_fd os rounds fd ext_fd) w)
  link_at p fd ext_fd w =
      on_node-After os rounds R c p (link_fd os rounds fd ext_fd) w
        (link_fd-After os rounds fd ext_fd (record { node = w.base p; kernel = w.kernel }))

  open_link-After : (w : World K) → After R R w (open_link os rounds w)
  unfolding open_link
  open_link-After w = opened (os.pipe2 w.kernel) refl
    where
      opened : (o : Piped K) → os.pipe2 w.kernel ≡ o → After R R w (open_link os rounds w)
      opened (piped r t k) e = rw (e, open_link) (c.kernel k w)
      opened (pipe_failed k) e = rw (e, open_link) tt

  link_nodes-After : (p : ℕ) (x : Linkage) (w : World K) → After R R w (link_nodes os rounds p x w)
  unfolding link_nodes get_node
  link_nodes-After p x w =
      After-bind R R run (open_link os rounds) _ w (open_link-After w) λ ends v e.
        After-deref_deref R R (λ u. launch_of (u.derived p)) (λ l u. find_name x.to l.nodes) _ v
          λ l to f g.
            After-bind R R run (on_node to (link_fd os rounds x.to_fd ends.0)) _ v
              (link_at to x.to_fd ends.0 v)
              λ a u e.
                After-deref_deref R R (λ u. launch_of (u.derived p))
                  (λ l u. find_name x.from l.nodes) _ u
                  λ l from f g.
                    After-bind R R run (on_node from (link_fd os rounds x.from_fd ends.1)) _ u
                      (link_at from x.from_fd ends.1 u)
                      λ a t e. c.kernel (os.close (os.close t.kernel ends.0) ends.1) t

  forked :
      (p inst : ℕ) (x : Process) (v : World K) (o : Forked K)
      → os.fork v.kernel ≡ o
      → process_of (v.derived p) ≡ some x
      → After R R v (
          (do
            pid ← Process.fork_process os
            modify λ w. record w { running_nodes = insert pid p w.running_nodes }
            Process.put_process p (record x { pid_instance = insert pid inst x.pid_instance }))
            v)
  unfolding Process.fork_process
  forked p inst x v (parent pid k) e found =
      rw (e, ◌>>=◌, Process.fork_process)
        (c.then_run v (record v { kernel = k }) _ (c.kernel k v)
          (c.registers p pid inst x (record v { kernel = k }) found))
  forked p inst x v (fork_failed k) e found = rw (e, ◌>>=◌, Process.fork_process) (c.kernel k v)

  forks-After : (p inst : ℕ) (w : World K) → After R R w (Process.start_instance os p inst w)
  unfolding Process.start_instance
  forks-After p inst w =
      let v : World K = record w { reaping = true } in
      After-then R R run w v _ (c.reaping w) (
        After-deref R R (λ u. process_of (u.derived p)) _ v
          λ x e.
            After-deref R R (λ u. env_sequence_to_env_data x.command.env_seq) _ v
              λ envs f. forked p inst x v (os.fork v.kernel) refl e)

  get_running-After :
      {B : Type 0} (p inst : ℕ) (k : RunningSequence → Exec (World K) B) (w : World K)
      → ((s : SequenceNode) (r : RunningSequence)
          → sequence_of (w.derived p) ≡ some s
          → lookup inst s.sequences ≡ some r
          → After R R w (k r w))
      → After R R w ((the_running p inst >>= k) w)
  unfolding the_running
  get_running-After p inst k w h =
      After-deref_deref R R (λ v. sequence_of (v.derived p)) (λ s v. lookup inst s.sequences) k w h

  -- The running sequence takes the descriptors that a method of Node leaves.
  running_takes :
      (p inst : ℕ) (s : SequenceNode) (r : RunningSequence) (w : World K) (l : Local K)
      → sequence_of (w.derived p) ≡ some s
      → lookup inst s.sequences ≡ some r
      → OnlyFds (record { node = r.node; kernel = w.kernel }) l
      → After R R w
          (put_running p inst (record r { node = l.node }) (record w { kernel = l.kernel }))
  unfolding put_running
  running_takes p inst s r w l found here f =
      let v = record w { kernel = l.kernel } in
      let t : RunningSequence = record r { node = l.node } in
      After-deref_at R R (λ u. sequence_of (u.derived p)) _ w v
        λ s' e.
          let both : some s ≡ some s' = sym found ∙ e in
          let same : s ≡ s' = cc in
          c.then_run w v _ (c.kernel l.kernel w) (
            c.sequences p s' (insert inst t s'.sequences) v e (
              insert-IsSequence s' inst t λ h.
                f.is_map
                  (h.fd_maps inst r (subst (λ s. lookup inst s.sequences ≡ some r) same here))))

  passes_running :
      (p inst : ℕ) (m : Map ℕ) (w : World K)
      → After R R w (on_running p inst (pass_fds os rounds m) w)
  unfolding on_running
  passes_running p inst m w = get_running-After p inst _ w λ s r e f.
      let l : Local K = record { node = r.node; kernel = w.kernel } in
      taken s r e f (pass_fds os rounds m l) (pass_fds-After os rounds m l)
    where
      taken :
          (s : SequenceNode) (r : RunningSequence)
          → sequence_of (w.derived p) ≡ some s
          → lookup inst s.sequences ≡ some r
          → (o : Outcome (Local K) (Unit {0}))
          → After OnlyFds OnlyFds (record { node = r.node; kernel = w.kernel }) o
          → After R R w (elim o as (λ o. Outcome (World K) (Unit {0})) [
            | done u l ↦
                put_running p inst (record r { node = l.node }) (record w { kernel = l.kernel })
            | thrown x l ↦
                (do put_running p inst (record r { node = l.node }); throw x)
                  (record w { kernel = l.kernel })
            | exited n l ↦ exited n (record w { kernel = l.kernel })
            | undefined ↦ undefined
            | no_fuel ↦ no_fuel
          ])
      taken s r e f (done u l) h = running_takes p inst s r w l e f h
      taken s r e f (thrown x l) h =
          After-bind_at R R run (put_running p inst (record r { node = l.node })) _ w
            (record w { kernel = l.kernel }) (running_takes p inst s r w l e f h)
            (λ a t g. c.same t)
      taken s r e f (exited n l) h = c.kernel l.kernel w
      taken s r e f undefined h = tt
      taken s r e f no_fuel h = tt

  erases_running : (p inst : ℕ) (w : World K) → After R R w (erase_running os rounds p inst w)
  unfolding erase_running
  erases_running p inst w = get_running-After p inst _ w λ s r e f.
      After-deref R R (λ v. sequence_of (v.derived p)) _ w
        λ s' e'.
          c.then_run w _ _
            (c.sequences p s' (erase inst s'.sequences) w e' (erase-IsSequence s' inst))
            (c.kernel (close_all os r.node.fd_map w.kernel) _)

  prepare-After : (p : ℕ) (w : World K) → After R R w (prepare_accept os.net p w)
  unfolding prepare_accept
  prepare-After p w = After-deref R R (λ v. v.sockets p) _ w λ s e. prepared s s.res
    where
      prepared :
          (s : SocketNode) (res : List ℕ)
          → After R R w (
              (elim res as (λ r. Exec (World K) (Unit {0})) [
                | [] ↦ (λ w. undefined)
                | addr ∷ next ↦ (λ w.
                    let (t, k) = prepare_loop os.net (addr ∷ next) s w.kernel in
                    put_socket p (record t { keep = true }) (record w { kernel = k }))
              ])
                w)
      prepared s [] = tt
      prepared s (addr ∷ next) =
          let r = prepare_loop os.net (addr ∷ next) s w.kernel in
          c.then_run w (record w { kernel = r.1 }) _ (c.kernel r.1 w)
            (c.sockets p (record r.0 { keep = true }) (record w { kernel = r.1 }))

  listens : (p inst : ℕ) (w : World K) → After R R w (start_accepting os os.net rounds p inst w)
  unfolding start_accepting
  listens p inst w = After-bind R R run (prepare_accept os.net p) _ w (prepare-After p w) λ a v e.
      After-deref R R (λ v. v.sockets p) _ v
        λ s f.
          After-bind R R run (if s.acc_thread then (λ v. exited 134 v) else pure tt) _ v
            (After-choice R R run s.acc_thread (λ v. exited 134 v) (pure tt) v (c.same v)
              (c.same v))
            (λ a u g. c.sockets p (record s { acc_thread = true; acc_inst = some inst }) u)

  socket_link :
      (p fd sock_fd : ℕ) (name : Text) (w : World K)
      → After R R w ((do to ← get_node p name; on_node to (link_fd os rounds fd sock_fd)) w)
  unfolding get_node
  socket_link p fd sock_fd name w =
      After-deref_deref R R (λ u. launch_of (u.derived p)) (λ l u. find_name name l.nodes) _ w
        (λ l to f g. link_at to fd sock_fd w)

  link_sockets-After :
      (p sock_fd : ℕ) (xs : List Linkage) (w : World K)
      → After R R w (link_sockets os os.net rounds p sock_fd xs w)
  unfolding link_sockets
  link_sockets-After p sock_fd [] w = c.same w
  link_sockets-After p sock_fd (x ∷ xs) w =
      After-bind R R run
        (if text_eq x.from (codes "socket")
          then (do to ← get_node p x.to; on_node to (link_fd os rounds x.to_fd sock_fd))
          else if text_eq x.to (codes "socket")
          then (do from ← get_node p x.from; on_node from (link_fd os rounds x.from_fd sock_fd))
          else pure tt)
        _ w
        (After-choice R R run (text_eq x.from (codes "socket")) _ _ w
          (socket_link p x.to_fd sock_fd x.to w)
          (After-choice R R run (text_eq x.to (codes "socket")) _ (pure tt) w
            (socket_link p x.from_fd sock_fd x.from w) (c.same w)))
        (λ a t e. link_sockets-After p sock_fd xs t)

  connects :
      (p acc_sock : ℕ) (w : World K) → After R R w (take_connection os os.net rounds p acc_sock w)
  unfolding take_connection
  connects p acc_sock w = answered (os.net.accept4 w.kernel acc_sock).0 refl
    where
      answered :
          (o : Option ℕ)
          → (os.net.accept4 w.kernel acc_sock).0 ≡ o
          → After R R w (take_connection os os.net rounds p acc_sock w)
      answered none e = rw (e, take_connection) (c.kernel (os.net.accept4 w.kernel acc_sock).1 w)
      answered (some sock_fd) e =
          let k = (os.net.accept4 w.kernel acc_sock).1 in
          let v : World K = record w { kernel = k } in
          rw (e, take_connection)
            (After-then R R run w v _ (c.kernel k w) (
              After-deref R R (λ u. u.sockets p) _ v
                λ s f.
                  After-bind R R run (link_sockets os os.net rounds p sock_fd s.seq) _ v
                    (link_sockets-After p sock_fd s.seq v)
                    (λ a t g. c.kernel (os.close t.kernel sock_fd) t)))

  abbrev local : ℕ → World K → Local K
  local p w = record { node = w.base p; kernel = w.kernel }

  pub Plain-Closed : Closed os rounds R R
  Plain-Closed = record {
    run = run;
    begins = c.begins;
    ends = c.ends;
    awaits = c.awaits;
    calls = c.calls;
    closes = λ p w.
        node_fds os rounds R c p w (close_fds os (local p w))
          (close_fds-OnlyFds os rounds (local p w));
    links = link_nodes-After;
    passes = λ p m fd child_fd w.
        on_node-After os rounds R c p (pass_fd os rounds m fd child_fd) w
          (pass_fd-After os rounds m fd child_fd (local p w));
    passes_all = λ p m w.
        on_node-After os rounds R c p (pass_fds os rounds m) w
          (pass_fds-After os rounds m (local p w));
    passes_running = passes_running;
    erases_running = erases_running;
    forks = forks-After;
    reaps = c.reaps;
    launches = c.launches;
    starts = λ p inst s w e. c.sequences p s _ w e (emplace-IsSequence s inst p);
    runs = λ p inst s r t w e f node. c.sequences p s (insert inst t s.sequences) w e (
        insert-IsSequence s inst t
          (λ h. subst (λ n. IsMap n.fd_map) (sym node) (h.fd_maps inst r f)));
    listens = listens;
    connects = connects;
    sockets = λ p s t w e. c.sockets p t w;
  }
