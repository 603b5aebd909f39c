-- ===== src/WsTrans/Kept.antt =====
-- The received buffers through the loop of ws_trans.
use arclaunch.Prelude.{
  ◌≡◌, refl, subst, Bool, false, not, Option, some, none, List, [], ◌∷◌, ◌>>=◌, ◌>>◌, pure, ◌==◌,
  ◌&&◌, if◌then◌else◌,
}
use arclaunch.WsConnection.{SimpleBuffer, Transport, Peer, ws_rx_frame}
use arclaunch.WsConnection.Leaves.{Leaves, bind-Leaves, ws_tx_frame-Leaves, ws_rx_frame-Leaves}
use arclaunch.WsHandlers.{run_handler, ws_simple_clear_buffer, the_buffer}
use arclaunch.WsHandlers.Chains.{HasChain, IsChained, both, either, run_handler-HasChain}
use arclaunch.WsTrans.{
  Ready, forward_stdin, write_buffers, forward_socket, trans_round, trans_loop, Rounds, here, next,
}

module _ {W : Type 0} (io : Transport W) where
  clear_on :
      (finished : Bool) (o : Option (List SimpleBuffer)) (s : Peer W)
      → s.conn.buffer ≡ o
      → IsChained o
      → HasChain s
      → Leaves HasChain (ws_simple_clear_buffer {W = W} finished s)
  unfolding ws_simple_clear_buffer
  clear_on finished none s e c h = rw (◌>>=◌, e) tt
  clear_on finished (some []) s e c h = rw (◌>>=◌, e) h
  clear_on finished (some (first ∷ prev)) s e c h =
      rw (◌>>=◌, e)
        (both io (first.is_complete == 0 && not finished) _ _ s (λ waits. (c.0, tt)) λ other. tt)

  write_keeps :
      (chain : List SimpleBuffer) (s : Peer W)
      → HasChain s
      → Leaves HasChain (write_buffers io chain s)
  unfolding write_buffers
  write_keeps [] s h = h
  write_keeps (b ∷ prev) s h = write_keeps prev _ h

  written_on :
      (o : Option (List SimpleBuffer)) (s : Peer W)
      → s.conn.buffer ≡ o
      → HasChain s
      → Leaves HasChain (
          (do
            chain ← the_buffer
            elim chain [
              | [] ↦ pure tt
              | b ∷ prev ↦ (do write_buffers io (b ∷ prev); ws_simple_clear_buffer false)
            ])
            s)
  written_on none s e h = rw (◌>>=◌, e) tt
  written_on (some []) s e h = rw (◌>>=◌, e) h
  written_on (some (b ∷ prev)) s e h =
      rw (◌>>=◌, e)
        (bind-Leaves (write_buffers io (b ∷ prev)) _ s (write_keeps (b ∷ prev) s h)
          λ a t ht. clear_on false t.conn.buffer t refl ht ht)

  socket_keeps : (s : Peer W) → HasChain s → Leaves HasChain (forward_socket io s)
  unfolding forward_socket
  socket_keeps s h =
      bind-Leaves (ws_rx_frame io (run_handler io)) _ s
        (ws_rx_frame-Leaves io HasChain (λ s w h. h) (run_handler io) s
          (λ handler f t ht. run_handler-HasChain io handler f t ht) h)
        λ a t ht. written_on t.conn.buffer t refl ht

  stdin_keeps : (s : Peer W) → HasChain s → Leaves HasChain (forward_stdin io s)
  unfolding forward_stdin
  stdin_keeps s h = ws_tx_frame-Leaves io HasChain (λ s w h. h) _ _ _ _ h

  round_keeps : (r : Ready) (s : Peer W) → HasChain s → Leaves HasChain (trans_round io r s)
  unfolding trans_round
  round_keeps r s h =
      bind-Leaves (if r.stdin then forward_stdin io else pure tt) _ s
        (both io r.stdin _ _ s (λ ready. stdin_keeps s h) λ quiet. h)
        λ a t ht. both io r.socket _ _ t (λ ready. socket_keeps t ht) λ quiet. ht

  loop_keeps : (rs : List Ready) (s : Peer W) → HasChain s → Leaves HasChain (trans_loop io rs s)
  unfolding trans_loop
  loop_keeps [] s h = either io s.conn.received_close _ _ h tt
  loop_keeps (r ∷ rs) s h =
      either io s.conn.received_close _ _ h
        (bind-Leaves (trans_round io r) _ s (round_keeps r s h) λ a t ht. loop_keeps rs t ht)

  reached_keeps : (rs : List Ready) (s t : Peer W) → Rounds io rs s t → HasChain s → HasChain t
  reached_keeps _ s _ here h = h
  reached_keeps _ s t (next {r = r} {rs = rs} {t = u} open_conn e rounds) h =
      reached_keeps rs u t rounds (subst (Leaves HasChain) e (round_keeps r s h))

  -- In every state that the loop of ws_trans comes to, after however many rounds and whatever arrives
  -- in them, each of the received buffers holds no more than is allocated for it, and all but the
  -- newest are complete; so it is where the loop ends after more rounds, or an exception leaves it.
  pub trans_loop-HasChain :
      (before rs : List Ready) (s t : Peer W)
      → HasChain s
      → Rounds io before s t
      → HasChain t × Leaves HasChain (trans_loop io rs t)
  trans_loop-HasChain before rs s t h rounds =
      let reached = reached_keeps before s t rounds h in (reached, loop_keeps rs t reached)
