-- ===== src/Socket.antt =====
-- src/SocketNode.cxx: a launch group that is started anew for each connection. What LaunchNode keeps
-- of it stands in `derived` of the world, the rest in `sockets`. The calls on sockets are a record of
-- operations on the kernel; what the calls of `select` answer is a list.
pub mod Accept
pub mod Listen
use arclaunch.Prelude.{
  ℕ, zero, suc, ◌+◌, ◌-◌, Bool, true, false, not, Option, none, some, List, [], ◌∷◌, ◌++◌, Exec,
  Outcome, done, thrown, exited, undefined, no_fuel, plain, ◌>>=◌, ◌>>◌, pure, throw, ltb, ◌==◌,
  if◌then◌else◌,
}
use arclaunch.Text.{Text, codes, text_eq}
use arclaunch.Element.{Linkage}
use arclaunch.Os.{Os, Net, Selected}
use arclaunch.Node.Fds.{link_fd}
use arclaunch.Node.Instances
use arclaunch.Node.Instances.{num_instances_running}
use arclaunch.World.{World, SocketNode, at, on_node, deref, modify}
use arclaunch.Launch
use arclaunch.Launch.{get_node}

-- FD_SETSIZE
abbrev pub set_size : ℕ
set_size = 1024

module _ {K : Type 0} where
  abbrev pub the_socket : ℕ → Exec (World K) SocketNode
  the_socket p = deref λ w. w.sockets p

  abbrev pub put_socket : ℕ → SocketNode → Exec (World K) (Unit {0})
  put_socket p s = modify λ w. record w { sockets = at w.sockets p (some s) }

abbrev pub raised : ℕ → Option ℕ → ℕ
raised maxfd none = maxfd
raised maxfd (some fd) = if ltb maxfd fd then fd else maxfd

abbrev pub less_one : Option ℕ → Option ℕ
less_one none = none
less_one (some n) = some (n - 1)

abbrev pub none_left : Option ℕ → Bool
none_left none = false
none_left (some n) = n == 0

module _ {K : Type 0} (net : Net K) where
  -- What the constructor adds to that of LaunchNode.
  unfoldable pub socket_node :
      ℕ → (socket : List Linkage) → (service : Option Text) → Text → Exec (World K) (Unit {0})
  socket_node p socket service address = elim (net.getaddrinfo address service) [
    | none ↦ throw plain
    | some res ↦ put_socket p (record {
      fds = [];
      maxfd = 0;
      seq = socket;
      res = res;
      keep = false;
      acc_thread = false;
      acc_inst = none;
    })
  ]

  -- The new socket of one address, which is bound and listens.
  unfoldable pub listen_on : K → ℕ → Option ℕ × K
  listen_on k addr =
      let (fd, k') = net.socket k addr in (fd, net.listen (net.bind k' fd addr) fd 20)

  -- The loop of `prepareAccept` from one address on.
  unfoldable pub prepare_loop : List ℕ → SocketNode → K → SocketNode × K
  unfolding listen_on
  prepare_loop [] s k = (s, k)
  prepare_loop (addr ∷ next) s k =
      let (fd, k') = listen_on k addr in
      prepare_loop next (record s { maxfd = raised s.maxfd fd; fds = s.fds ++ fd ∷ [] }) k'

  -- An empty list is a null pointer, which the loop would follow.
  unfoldable pub prepare_accept : ℕ → Exec (World K) (Unit {0})
  prepare_accept p = do
    s ← the_socket p
    elim s.res [
      | [] ↦ (λ w. undefined)
      | addr ∷ next ↦ (λ w.
          let (t, k) = prepare_loop (addr ∷ next) s w.kernel in
          put_socket p (record t { keep = true }) (record w { kernel = k }))
    ]

-- FD_SET of each accepting socket; outside the set it is undefined.
unfoldable pub in_set : List (Option ℕ) → Bool
in_set [] = true
in_set (none ∷ fds) = false
in_set (some fd ∷ fds) = if ltb fd set_size then in_set fds else false

module _ {K : Type 0} (os : Os K) (net : Net K) (rounds : ℕ) where
  -- The linkage of a connection to the nodes.
  unfoldable pub link_sockets : ℕ → ℕ → List Linkage → Exec (World K) (Unit {0})
  unfolding get_node link_fd text_eq
  link_sockets p sock_fd [] = pure tt
  link_sockets p sock_fd (x ∷ xs) = do
    if text_eq x.from (codes "socket")
        then (do to ← get_node p x.to; on_node to (link_fd os rounds x.to_fd sock_fd))
        else if text_eq x.to (codes "socket")
        then (do from ← get_node p x.from; on_node from (link_fd os rounds x.from_fd sock_fd))
        else pure tt
    link_sockets p sock_fd xs

  -- A connection is accepted and linked; the descriptor is then closed.
  unfoldable pub take_connection : ℕ → ℕ → Exec (World K) (Unit {0})
  unfolding link_sockets
  take_connection p acc_sock w =
      let (answer, k) = net.accept4 w.kernel acc_sock in
      elim answer [
        | none ↦ throw plain (record w { kernel = k })
        | some sock_fd ↦
            (do
              s ← the_socket p
              link_sockets p sock_fd s.seq
              modify λ v. record v { kernel = os.close v.kernel sock_fd })
              (record w { kernel = k })
      ]

  -- The end of `startInstance`: the accepting sockets, and the thread. A thread that has not been
  -- joined is not replaced: std::terminate ends the program.
  unfoldable pub start_accepting : ℕ → ℕ → Exec (World K) (Unit {0})
  unfolding prepare_accept
  start_accepting p inst = do
    prepare_accept net p
    s ← the_socket p
    if s.acc_thread then (λ v. exited 134 v) else pure tt
    put_socket p (record s { acc_thread = true; acc_inst = some inst })

  module _ (startup : ℕ → Exec (World K) ℕ) where
    unfoldable pub accept_one : ℕ → ℕ → Exec (World K) (Unit {0})
    unfolding take_connection
    accept_one p acc_sock = do take_connection p acc_sock; startup p; pure tt

    -- The loop over the accepting sockets.
    unfoldable pub accept_fds :
        ℕ → (ℕ → Bool) → Option ℕ → List (Option ℕ) → Exec (World K) (Unit {0})
    accept_fds p ready num [] = pure tt
    accept_fds p ready num (none ∷ fds) = if none_left num then pure tt else (λ w. undefined)
    accept_fds p ready num (some acc_sock ∷ fds) =
        let others = accept_fds p ready num fds in
        let fewer = accept_fds p ready (less_one num) fds in
        if none_left num
        then pure tt
        else if ready acc_sock
        then (do accept_one p acc_sock; fewer)
        else others

    module _ (finish_instance : ℕ → ℕ → ℕ → Exec (World K) (Unit {0})) where
      -- The rounds of acceptConnections, with what the last `select` left. Where it does not answer,
      -- the rounds have not come to an end.
      unfoldable pub accept_rounds :
          ℕ → ℕ → (ℕ → Bool) → Option ℕ → List Selected → Exec (World K) (Unit {0})
      accept_rounds p inst ready num [] = do
        s ← the_socket p
        accept_fds p ready num s.fds
        λ w. no_fuel
      accept_rounds p inst ready num (x ∷ xs) = do
        s ← the_socket p
        accept_fds p ready num s.fds
        if in_set s.fds then pure tt else (λ w. undefined)
        if x.keep then accept_rounds p inst x.ready x.num_acc_sock xs else finish_instance p inst 0

      unfoldable pub accept_connections : ℕ → ℕ → List Selected → Exec (World K) (Unit {0})
      unfolding accept_rounds
      accept_connections p inst xs = accept_rounds p inst (λ fd. false) (some 0) xs

      -- What is left of the thread when its last `select` answers.
      unfoldable pub accept_left : ℕ → ℕ → List Selected → Exec (World K) (Unit {0})
      unfolding accept_rounds
      accept_left p inst [] = λ w. no_fuel
      accept_left p inst (x ∷ xs) =
          if x.keep
          then accept_rounds p inst x.ready x.num_acc_sock xs
          else finish_instance p inst 0

      -- `startInstance`; `launch_start` is that of LaunchNode.
      unfoldable pub start_instance :
          (launch_start : ℕ → ℕ → Exec (World K) (Unit {0})) → ℕ → ℕ → Exec (World K) (Unit {0})
      unfolding start_accepting
      start_instance launch_start p inst w =
          if ltb 1 (num_instances_running (w.base p))
          then launch_start p inst w
          else start_accepting p inst w

module _ {K : Type 0} where
  -- `waitForInstance`; `join` is what is left of the accepting thread, and `launch_wait` the method
  -- of LaunchNode. `accInst` is not set before the first start.
  unfoldable pub wait_for_instance :
      (join : Exec (World K) (Unit {0}))
      → (launch_wait : ℕ → ℕ → Exec (World K) (Unit {0})) → ℕ
      → ℕ
      → Exec (World K) (Unit {0})
  wait_for_instance join launch_wait p inst = do
    s ← the_socket p
    elim s.acc_inst [
      | none ↦ (λ w. undefined)
      | some acc_inst ↦
          if acc_inst == inst
          then (do
            put_socket p (record s { keep = false })
            if s.acc_thread
                then (do join; t ← the_socket p; put_socket p (record t { acc_thread = false }))
                else pure tt)
          else launch_wait p inst
    ]

unfoldable pub close_sockets : {K : Type 0} → Os K → List (Option ℕ) → K → K
close_sockets os [] k = k
close_sockets os (none ∷ fds) k = close_sockets os fds k
close_sockets os (some fd ∷ fds) k = close_sockets os fds (os.close k fd)

-- The destructor; to close the descriptor -1 does nothing.
unfoldable pub destroy :
    {K : Type 0} → Os K → (wait_for : ℕ → Exec (World K) (Unit {0})) → ℕ → Exec (World K) (Unit {0})
destroy os wait_for p = do
  wait_for p
  s ← the_socket p
  modify λ w. record w { kernel = close_sockets os s.fds w.kernel }
