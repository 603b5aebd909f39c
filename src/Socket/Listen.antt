-- ===== src/Socket/Listen.antt =====
-- The accepting sockets of a socket node: SocketNode::prepareAccept.
use arclaunch.Prelude.{
  ℕ, ◌+◌, ◌≤◌, ◌≡◌, refl, ap, sym, ◌∙◌, true, Option, none, some, List, [], ◌∷◌, ◌++◌, Exec, done,
  undefined, ◌>>=◌, length, length-append, arith, All, All-append,
}
use arclaunch.World.{World, SocketNode, at}
use arclaunch.Os.{Net}
use arclaunch.Socket.{listen_on, raised, prepare_loop, prepare_accept, put_socket}

-- A descriptor that `select` looks at when it is given `maxfd + 1`.
abbrev pub IsWatched : ℕ → Option ℕ → Type 0
IsWatched maxfd none = Unit {0}
IsWatched maxfd (some fd) = fd ≤ maxfd

raised-IsWatched :
    (maxfd : ℕ) (new : Option ℕ) (fds : List (Option ℕ))
    → All (IsWatched maxfd) fds
    → All (IsWatched (raised maxfd new)) fds
raised-IsWatched maxfd new [] h = tt
raised-IsWatched maxfd new (fd ∷ fds) h = (one new fd h.0, raised-IsWatched maxfd new fds h.1)
  where
    one : (new fd : Option ℕ) → IsWatched maxfd fd → IsWatched (raised maxfd new) fd
    one new none k = tt
    one none (some fd) k = k
    one (some a) (some fd) k = ground arith

new-IsWatched : (maxfd : ℕ) (new : Option ℕ) → IsWatched (raised maxfd new) new
new-IsWatched maxfd none = tt
new-IsWatched maxfd (some fd) = ground arith

module _ {K : Type 0} (net : Net K) where
  pub loop_lem :
      (addrs : List ℕ) (s : SocketNode) (k : K)
      → All (IsWatched s.maxfd) s.fds
      → let t = (prepare_loop net addrs s k).0 in
        All (IsWatched t.maxfd) t.fds
        × (length t.fds ≡ length s.fds + length addrs)
        × (t.acc_thread ≡ s.acc_thread)
        × (t.seq ≡ s.seq)
  unfolding prepare_loop
  loop_lem [] s k h = (h, omega arith, refl, refl)
  loop_lem (addr ∷ next) s k h =
      let (fd, k') = listen_on net k addr in
      let t : SocketNode = record s { maxfd = raised s.maxfd fd; fds = s.fds ++ fd ∷ [] } in
      let (watched, count, thread, seq) = loop_lem next t k' (
        All-append (IsWatched t.maxfd) s.fds (fd ∷ []) (raised-IsWatched s.maxfd fd s.fds h)
          (new-IsWatched s.maxfd fd, tt)) in
      (watched, omega (arith, count, length-append s.fds (fd ∷ [])), thread, seq)

  prepared : ℕ → SocketNode → List ℕ → Exec (World K) (Unit {0})
  prepared p s addrs = elim addrs [
    | [] ↦ (λ w. undefined)
    | addr ∷ next ↦ (λ w.
        let (t, k) = prepare_loop net (addr ∷ next) s w.kernel in
        put_socket p (record t { keep = true }) (record w { kernel = k }))
  ]

  opened :
      (p : ℕ) (s : SocketNode) (w : World K)
      → w.sockets p ≡ some s
      → prepare_accept net p w ≡ prepared p s s.res w
  unfolding prepare_accept prepared
  opened p s w e = rw (◌>>=◌, e)

  -- The state that prepareAccept leaves.
  abbrev pub accepting : ℕ → SocketNode → World K → World K
  accepting p s w =
      let (t, k) = prepare_loop net s.res s w.kernel in
      record w { kernel = k; sockets = at w.sockets p (some (record t { keep = true })) }

  pub prepare_accept_lem :
      (p : ℕ) (s : SocketNode) (addr : ℕ) (next : List ℕ) (w : World K)
      → w.sockets p ≡ some s
      → s.res ≡ addr ∷ next
      → prepare_accept net p w ≡ done tt (accepting p s w)
  unfolding prepared
  prepare_accept_lem p s addr next w e res =
      opened p s w e
      ∙ ap (λ l. prepared p s l w) res
      ∙ ap
          (λ l.
            let (t, k) = prepare_loop net l s w.kernel in
            done tt
              (record w { kernel = k; sockets = at w.sockets p (some (record t { keep = true })) }))
          (sym res)
