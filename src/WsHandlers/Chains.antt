-- ===== src/WsHandlers/Chains.antt =====
-- The received buffers: what the frame handlers keep of their chain.
use arclaunch.Prelude.{
  Bool-cases, inl, inr, ℕ, ◌+◌, ◌≤◌, ◌≡◌, refl, Bool, true, false, not, Option, some, none, List,
  [], ◌∷◌, ◌++◌, Exec, Outcome, ◌>>=◌, pure, arith, All, ◌==◌, if◌then◌else◌, String,
}
use arclaunch.Text.{codes}
use arclaunch.WsFrame.{
  WsFrame, get_ws_payload_size, ws_frame_is_final, store, ws_text, ws_binary, ws_close,
}
use arclaunch.WsConnection.{
  SimpleBuffer, Transport, Peer, Handler, ws_simple_continuation_handler, ws_simple_text_handler,
  ws_simple_binary_handler, ws_simple_close_handler, ws_simple_ping_handler, ws_simple_pong_handler,
  defined, bytes_at, ws_tx_frame,
}
use arclaunch.WsConnection.Leaves.{Leaves, bind-Leaves, ws_tx_frame-Leaves}
use arclaunch.WsHandlers.{
  strncpy, strncpy_at, send_error, new_buffer, set_buffer, text_handler, binary_handler, grown,
  appended, append_payload, continuation_handler, close_handler, ping_handler, run_handler,
}

-- A buffer holds no more than is allocated for it; an older one is complete.
abbrev pub IsOlder : SimpleBuffer → Type 0
IsOlder b = (b.nbytes ≤ b.nalloc) × ((b.is_complete == 0) ≡ false)

abbrev pub IsChain : List SimpleBuffer → Type 0
IsChain [] = Unit {0}
IsChain (b ∷ older) = (b.nbytes ≤ b.nalloc) × All IsOlder older

abbrev pub IsChained : Option (List SimpleBuffer) → Type 0
IsChained none = Unit {0}
IsChained (some chain) = IsChain chain

abbrev pub HasChain : {W : Type 0} → Peer W → Type 0
HasChain s = IsChained s.conn.buffer

module _ {W : Type 0} (io : Transport W) where
  tx_keeps :
      (op : ℕ) (src : Option (List ℕ)) (n : ℕ) (s : Peer W)
      → HasChain s
      → Leaves HasChain (ws_tx_frame io op src n s)
  tx_keeps = ws_tx_frame-Leaves io HasChain λ s w h. h

  defined_then :
      {A : Type 0} (o : Option A) (f : A → Exec (Peer W) (Unit {0})) (s : Peer W)
      → ((a : A) → Leaves HasChain (f a s))
      → Leaves HasChain ((defined io o >>= f) s)
  defined_then none f s h = tt
  defined_then (some a) f s h = h a

  defined-pure :
      {A : Type 0} (o : Option A) (k : A → SimpleBuffer)
      (f : SimpleBuffer → Exec (Peer W) (Unit {0})) (s : Peer W)
      → ((a : A) → Leaves HasChain (f (k a) s))
      → Leaves HasChain (((defined io o >>= λ a. pure (k a)) >>= f) s)
  defined-pure none k f s h = tt
  defined-pure (some a) k f s h = h a

  error_keeps :
      (n : ℕ) (message : String) (s : Peer W)
      → HasChain s
      → Leaves HasChain (send_error io n message s)
  unfolding send_error
  error_keeps n message s h =
      defined_then (strncpy n (codes message ++ 0 ∷ [])) _ s λ text. tx_keeps _ _ _ s h

  pub both :
      (t : Bool) (taken other : Exec (Peer W) (Unit {0})) (s : Peer W)
      → (t ≡ true → Leaves HasChain (taken s))
      → (t ≡ false → Leaves HasChain (other s))
      → Leaves HasChain ((if t then taken else other) s)
  both true taken other s h k = h refl
  both false taken other s h k = k refl

  -- The chain of a new buffer, in front of a complete one.
  in_front :
      (f : WsFrame) (content : ℕ → ℕ) (first : SimpleBuffer) (older : List SimpleBuffer)
      → IsChain (first ∷ older)
      → (first.is_complete == 0) ≡ false
      → IsChain (new_buffer io f content ∷ first ∷ older)
  in_front f content first older h complete = (omega arith, ((h.0, complete), h.1))

  text_on :
      (f : WsFrame) (chain : Option (List SimpleBuffer)) (s : Peer W)
      → s.conn.buffer ≡ chain
      → IsChained chain
      → HasChain s
      → Leaves HasChain (text_handler io f s)
  unfolding text_handler
  text_on f none s e h hs = rw (◌>>=◌, e) tt
  text_on f (some []) s e h hs =
      rw (◌>>=◌, e)
        (defined_then (strncpy_at f.payload (get_ws_payload_size f)) _ s λ text. (omega arith, tt))
  text_on f (some (first ∷ older)) s e h hs =
      rw (◌>>=◌, e)
        (both (first.is_complete == 0) _ _ s (λ waits. error_keeps _ _ s hs)
          λ complete.
            defined_then (strncpy_at f.payload (get_ws_payload_size f)) _ s
              λ text. in_front f (store 0 text io.heap) first older h complete)

  binary_on :
      (f : WsFrame) (chain : Option (List SimpleBuffer)) (s : Peer W)
      → s.conn.buffer ≡ chain
      → IsChained chain
      → HasChain s
      → Leaves HasChain (binary_handler io f s)
  unfolding binary_handler
  binary_on f none s e h hs = rw (◌>>=◌, e) tt
  binary_on f (some []) s e h hs = rw (◌>>=◌, e) tt
  binary_on f (some (first ∷ older)) s e h hs =
      rw (◌>>=◌, e)
        (both (first.is_complete == 0) _ _ s (λ waits. error_keeps _ _ s hs)
          λ complete. in_front f io.heap first older h complete)

  append_keeps :
      (b : SimpleBuffer) (f : WsFrame) (older : List SimpleBuffer) (s : Peer W)
      → b.nbytes + get_ws_payload_size f ≤ b.nalloc
      → All IsOlder older
      → Leaves HasChain (
          (do
            filled ← append_payload io b f
            set_buffer (record filled { is_complete = ws_frame_is_final f } ∷ older))
            s)
  unfolding append_payload
  append_keeps b f older s room h = elim (Bool-cases (b.type == ws_text)) [
    | inl text ↦ rw text (
        defined-pure (strncpy_at f.payload (get_ws_payload_size f))
          (λ bytes. appended io b (get_ws_payload_size f) bytes) _ s λ bytes. (room, h))
    | inr no_text ↦ elim (Bool-cases (b.type == ws_binary)) [
      | inl binary ↦
          rw (no_text, binary)
            (defined-pure (bytes_at f.payload (get_ws_payload_size f))
              (λ bytes. appended io b (get_ws_payload_size f) bytes) _ s λ bytes. (room, h))
      | inr other ↦ rw (no_text, other) (omega (arith, room), h)
    ]
  ]

  continuation_on :
      (f : WsFrame) (chain : Option (List SimpleBuffer)) (s : Peer W)
      → s.conn.buffer ≡ chain
      → IsChained chain
      → HasChain s
      → Leaves HasChain (continuation_handler io f s)
  unfolding continuation_handler
  continuation_on f none s e h hs = rw (◌>>=◌, e) tt
  continuation_on f (some []) s e h hs = rw (◌>>=◌, e) tt
  continuation_on f (some (first ∷ older)) s e h hs =
      rw (◌>>=◌, e)
        (both (not (first.is_complete == 0)) _ _ s (λ complete. error_keeps _ _ s hs)
          λ waits.
            append_keeps (grown io first (get_ws_payload_size f)) f older s (ground arith) h.1)

  pub either :
      (t : Bool) (taken other : Outcome (Peer W) (Unit {0}))
      → Leaves HasChain taken
      → Leaves HasChain other
      → Leaves HasChain (if t then taken else other)
  either true taken other h k = h
  either false taken other h k = k

  close_keeps : (f : WsFrame) (s : Peer W) → HasChain s → Leaves HasChain (close_handler io f s)
  unfolding close_handler
  close_keeps f s h = either s.conn.transmitted_close _ _ h (
      bind-Leaves (ws_tx_frame io ws_close f.payload (get_ws_payload_size f)) _ _
        (tx_keeps ws_close f.payload (get_ws_payload_size f) _ h) λ a t ht. ht)

  ping_keeps : (f : WsFrame) (s : Peer W) → HasChain s → Leaves HasChain (ping_handler io f s)
  unfolding ping_handler
  ping_keeps f s h = tx_keeps _ _ _ s h

  -- Whatever frame a handler is run on, it keeps the chain of the received buffers in order: each
  -- holds no more than is allocated for it, and all but the newest are complete.
  pub run_handler-HasChain :
      (handler : Handler) (f : WsFrame) (s : Peer W)
      → HasChain s
      → Leaves HasChain (run_handler io handler f s)
  unfolding run_handler
  run_handler-HasChain ws_simple_continuation_handler f s h =
      continuation_on f s.conn.buffer s refl h h
  run_handler-HasChain ws_simple_text_handler f s h = text_on f s.conn.buffer s refl h h
  run_handler-HasChain ws_simple_binary_handler f s h = binary_on f s.conn.buffer s refl h h
  run_handler-HasChain ws_simple_close_handler f s h = close_keeps f s h
  run_handler-HasChain ws_simple_ping_handler f s h = ping_keeps f s h
  run_handler-HasChain ws_simple_pong_handler f s h = h
