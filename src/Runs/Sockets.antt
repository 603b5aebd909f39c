-- ===== src/Runs/Sockets.antt =====
-- The methods of SocketNode keep a closed relation, if startup and the handlers do.
use arclaunch.Prelude.{
  ℕ, ◌≡◌, Bool, false, Option, none, some, List, [], ◌∷◌, Exec, undefined, ◌>>=◌, ◌>>◌, pure, ltb,
  ◌==◌, if◌then◌else◌,
}
use arclaunch.Os.{Os, Selected}
use arclaunch.Node.Instances.{num_instances_running}
use arclaunch.World.{World, SocketNode}
use arclaunch.Socket
use arclaunch.Socket.{
  take_connection, accept_one, accept_fds, accept_rounds, accept_left, start_accepting, in_set,
  none_left, less_one, the_socket, put_socket,
}
use arclaunch.Runs.{After, After-bind, After-deref, After-choice, After-if}
use arclaunch.Runs.Closed.{Closed}

module _ {K : Type 0} (os : Os K) (rounds : ℕ) (R T : World K → World K → Type 0)
    (c : Closed os rounds R T) where
  module _ (startup : ℕ → Exec (World K) ℕ)
      (starts : (p : ℕ) (w : World K) → After R T w (startup p w)) where
    accept_one-After :
        (p acc_sock : ℕ) (w : World K)
        → After R T w (accept_one os os.net rounds startup p acc_sock w)
    unfolding accept_one
    accept_one-After p acc_sock w =
        After-bind R T c.run (take_connection os os.net rounds p acc_sock) _ w
          (c.connects p acc_sock w)
          λ a t e.
            After-bind R T c.run (startup p) (λ n. pure tt) t (starts p t) (λ n u f. c.run.same u)

    pub accept_fds-After :
        (p : ℕ) (ready : ℕ → Bool) (num : Option ℕ) (fds : List (Option ℕ)) (w : World K)
        → After R T w (accept_fds os os.net rounds startup p ready num fds w)
    unfolding accept_fds
    accept_fds-After p ready num [] w = c.run.same w
    accept_fds-After p ready num (none ∷ fds) w =
        After-choice R T c.run (none_left num) (pure tt) (λ w. undefined) w (c.run.same w) tt
    accept_fds-After p ready num (some acc_sock ∷ fds) w =
        After-choice R T c.run (none_left num) (pure tt) _ w (c.run.same w) (
          After-choice R T c.run (ready acc_sock) _
            (accept_fds os os.net rounds startup p ready num fds) w
            (After-bind R T c.run (accept_one os os.net rounds startup p acc_sock)
              (λ a. accept_fds os os.net rounds startup p ready (less_one num) fds) w
              (accept_one-After p acc_sock w)
              (λ a t e. accept_fds-After p ready (less_one num) fds t))
            (accept_fds-After p ready num fds w))

    module _ (finish : ℕ → ℕ → ℕ → Exec (World K) (Unit {0}))
        (finishes : (p inst retval : ℕ) (w : World K) → After R T w (finish p inst retval w)) where
      accept_rounds-After :
          (p inst : ℕ) (ready : ℕ → Bool) (num : Option ℕ) (xs : List Selected) (w : World K)
          → After R T w (accept_rounds os os.net rounds startup finish p inst ready num xs w)
      unfolding accept_rounds
      accept_rounds-After p inst ready num [] w =
          After-deref R T (λ v. v.sockets p) _ w
            λ s e.
              After-bind R T c.run (accept_fds os os.net rounds startup p ready num s.fds) _ w
                (accept_fds-After p ready num s.fds w) (λ a t f. tt)
      accept_rounds-After p inst ready num (x ∷ xs) w =
          After-deref R T (λ v. v.sockets p) _ w
            λ s e.
              After-bind R T c.run (accept_fds os os.net rounds startup p ready num s.fds) _ w
                (accept_fds-After p ready num s.fds w)
                λ a t f.
                  After-bind R T c.run (if in_set s.fds then pure tt else (λ w. undefined)) _ t
                    (After-choice R T c.run (in_set s.fds) (pure tt) (λ w. undefined) t
                      (c.run.same t) tt)
                    λ a u g.
                      After-choice R T c.run x.keep
                        (accept_rounds os os.net rounds startup finish p inst x.ready x.num_acc_sock
                          xs)
                        (finish p inst 0) u (accept_rounds-After p inst x.ready x.num_acc_sock xs u)
                        (finishes p inst 0 u)

      pub accept_left-After :
          (p inst : ℕ) (xs : List Selected) (w : World K)
          → After R T w (accept_left os os.net rounds startup finish p inst xs w)
      unfolding accept_left
      accept_left-After p inst [] w = tt
      accept_left-After p inst (x ∷ xs) w =
          After-choice R T c.run x.keep
            (accept_rounds os os.net rounds startup finish p inst x.ready x.num_acc_sock xs)
            (finish p inst 0) w (accept_rounds-After p inst x.ready x.num_acc_sock xs w)
            (finishes p inst 0 w)

      pub start_socket-After :
          (launch_start : ℕ → ℕ → Exec (World K) (Unit {0}))
          → ((p inst : ℕ) (w : World K) → After R T w (launch_start p inst w))
          → (p inst : ℕ) (w : World K)
          → After R T w
              (Socket.start_instance os os.net rounds startup finish launch_start p inst w)
      unfolding Socket.start_instance
      start_socket-After launch_start h p inst w =
          After-if R T c.run (ltb 1 (num_instances_running (w.base p))) (launch_start p inst w)
            (start_accepting os os.net rounds p inst w) w (h p inst w) (c.listens p inst w)

  pub socket_wait-After :
      (join : Exec (World K) (Unit {0})) (launch_wait : ℕ → ℕ → Exec (World K) (Unit {0}))
      → ((w : World K) → After R T w (join w))
      → ((p inst : ℕ) (w : World K) → After R T w (launch_wait p inst w))
      → (p inst : ℕ) (w : World K)
      → After R T w (Socket.wait_for_instance join launch_wait p inst w)
  unfolding Socket.wait_for_instance
  socket_wait-After join launch_wait joins waits p inst w =
      After-deref R T (λ v. v.sockets p) _ w λ s e. waited s e s.acc_inst
    where
      joined :
          (w : World K)
          → After R T w
              ((do join; t ← the_socket p; put_socket p (record t { acc_thread = false })) w)
      joined w = After-bind R T c.run join _ w (joins w) λ a v f.
          After-deref R T (λ u. u.sockets p) _ v
            (λ t g. c.sockets p t (record t { acc_thread = false }) v g)

      waited :
          (s : SocketNode)
          → w.sockets p ≡ some s
          → (acc : Option ℕ)
          → After R T w (
              (elim acc as (λ o. Exec (World K) (Unit {0})) [
                | none ↦ (λ w. undefined)
                | some acc_inst ↦
                    if acc_inst == inst
                    then (do
                      put_socket p (record s { keep = false })
                      if s.acc_thread
                          then (do
                            join
                            t ← the_socket p
                            put_socket p (record t { acc_thread = false }))
                          else pure tt)
                    else launch_wait p inst
              ])
                w)
      waited s e none = tt
      waited s e (some acc_inst) =
          After-choice R T c.run (acc_inst == inst)
            (do
              put_socket p (record s { keep = false })
              if s.acc_thread
                  then (do join; t ← the_socket p; put_socket p (record t { acc_thread = false }))
                  else pure tt)
            (launch_wait p inst) w
            (After-bind R T c.run (put_socket p (record s { keep = false }))
              (λ a.
                if s.acc_thread
                then (do join; t ← the_socket p; put_socket p (record t { acc_thread = false }))
                else pure tt)
              w (c.sockets p s (record s { keep = false }) w e)
              λ a v f.
                After-choice R T c.run s.acc_thread
                  (do join; t ← the_socket p; put_socket p (record t { acc_thread = false }))
                  (pure tt) v (joined v) (c.run.same v))
            (waits p inst w)
