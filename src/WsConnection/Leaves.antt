-- ===== src/WsConnection/Leaves.antt =====
-- What holds of the connection whatever an action does to the outside: ws_tx_frame and ws_rx_frame
-- change nothing of the connection themselves.
use arclaunch.Prelude.{
  ℕ, Option, some, none, List, [], ◌∷◌, Exec, Outcome, done, thrown, exited, undefined, no_fuel,
  ◌>>=◌, get_elem?,
}
use arclaunch.WsFrame.{WsFrame, get_ws_opcode, get_ws_payload_size, mask_ws_frame}
use arclaunch.WsConnection.{
  Handler, ws_server, ws_client, Transport, Peer, defined, random, mask_if_client, ws_fd_tx,
  copy_payload, tx_header, ws_tx_frame, ws_fd_rx, receive_frame, ws_rx_frame,
}

-- Where the outcome has a state, the state has the property.
abbrev pub Leaves : {S A : Type 0} → (S → Type 0) → Outcome S A → Type 0
Leaves P (done a s) = P s
Leaves P (thrown e s) = P s
Leaves P (exited c s) = P s
Leaves P undefined = Unit {0}
Leaves P no_fuel = Unit {0}

pub bind-Leaves :
    {S A B : Type 0} {P : S → Type 0} (m : Exec S A) (f : A → Exec S B) (s : S)
    → Leaves P (m s)
    → ((a : A) (t : S) → P t → Leaves P (f a t))
    → Leaves P ((m >>= f) s)
bind-Leaves {P = P} m f s first then_f = go (m s) first
  where
    go :
        (o : Outcome _ _)
        → Leaves P o
        → Leaves P (elim o [
          | done a s' ↦ f a s'
          | thrown e s' ↦ thrown e s'
          | exited c s' ↦ exited c s'
          | undefined ↦ undefined
          | no_fuel ↦ no_fuel
        ])
    go (done a t) h = then_f a t h
    go (thrown e t) h = h
    go (exited c t) h = h
    go undefined h = tt
    go no_fuel h = tt

module _ {W : Type 0} (io : Transport W) (P : Peer W → Type 0)
    (kept : (s : Peer W) (w : W) → P s → P (record s { world = w })) where
  pub defined-Leaves : {A : Type 0} (o : Option A) (s : Peer W) → P s → Leaves P (defined io o s)
  defined-Leaves none s h = tt
  defined-Leaves (some a) s h = h

  fd_tx-Leaves : (bytes : List ℕ) (s : Peer W) → P s → Leaves P (ws_fd_tx io bytes s)
  unfolding ws_fd_tx
  fd_tx-Leaves bytes s h =
      elim s.conn.tx_data
        as (λ o. Leaves P (elim o [
          | none ↦ undefined
          | some fd ↦ done tt (record s { world = io.write fd bytes s.world })
        ])) [ none ↦ tt | some fd ↦ kept s (io.write fd bytes s.world) h ]

  random-Leaves : (s : Peer W) → P s → Leaves P (random io s)
  random-Leaves s h = kept s (io.random s.world).1 h

  mask-Leaves : (f : WsFrame) (s : Peer W) → P s → Leaves P (mask_if_client io f s)
  unfolding mask_if_client
  mask-Leaves f s h =
      elim s.conn.endpoint
        as (λ e. Leaves P (elim e [
          | ws_server ↦ done f s
          | ws_client ↦
              (do
                a ← random io
                b ← random io
                c ← random io
                d ← random io
                defined io (mask_ws_frame (a ∷ b ∷ c ∷ d ∷ []) f))
                s
        ])) [
          | ws_server ↦ h
          | ws_client ↦ bind-Leaves (random io) _ s (random-Leaves s h) λ a t ht.
              bind-Leaves (random io) _ t (random-Leaves t ht) λ b u hu.
                bind-Leaves (random io) _ u (random-Leaves u hu) λ c v hv.
                  bind-Leaves (random io) _ v (random-Leaves v hv)
                    λ d x hx. defined-Leaves (mask_ws_frame (a ∷ b ∷ c ∷ d ∷ []) f) x hx
        ]

  pub ws_tx_frame-Leaves :
      (op : ℕ) (src : Option (List ℕ)) (n : ℕ) (s : Peer W)
      → P s
      → Leaves P (ws_tx_frame io op src n s)
  unfolding ws_tx_frame
  ws_tx_frame-Leaves op src n s h =
      bind-Leaves (defined io (copy_payload io (get_ws_payload_size (tx_header io op n)) n src)) _ s
        (defined-Leaves _ s h)
        λ payload t ht. bind-Leaves (mask_if_client io _) _ t (mask-Leaves _ t ht) λ masked u hu.
          bind-Leaves (ws_fd_tx io _) _ u (fd_tx-Leaves _ u hu) λ sent v hv.
            bind-Leaves (defined io _) _ v (defined-Leaves _ v hv)
              λ bytes x hx. fd_tx-Leaves bytes x hx

  fd_rx-Leaves : (n : ℕ) (s : Peer W) → P s → Leaves P (ws_fd_rx io n s)
  unfolding ws_fd_rx
  fd_rx-Leaves n s h =
      elim s.conn.rx_data
        as (λ o. Leaves P (elim o [
          | none ↦ undefined
          | some fd ↦ let (bytes, w) = io.read fd n s.world in done bytes (record s { world = w })
        ])) [ none ↦ tt | some fd ↦ kept s (io.read fd n s.world).1 h ]

  receive-Leaves : (s : Peer W) → P s → Leaves P (receive_frame io s)
  unfolding receive_frame
  receive-Leaves s h = bind-Leaves (ws_fd_rx io 2) _ s (fd_rx-Leaves 2 s h) λ first t ht.
      bind-Leaves (ws_fd_rx io _) _ t (fd_rx-Leaves _ t ht) λ rest u hu.
        bind-Leaves (ws_fd_rx io _) _ u (fd_rx-Leaves _ u hu) λ bytes v hv. defined-Leaves _ v hv

  pub ws_rx_frame-Leaves :
      (run : Handler → WsFrame → Exec (Peer W) (Unit {0})) (s : Peer W)
      → ((h : Handler) (f : WsFrame) (t : Peer W) → P t → Leaves P (run h f t))
      → P s
      → Leaves P (ws_rx_frame io run s)
  unfolding ws_rx_frame
  ws_rx_frame-Leaves run s runs h =
      bind-Leaves (receive_frame io) _ s (receive-Leaves s h) λ pack t ht.
        elim (get_elem? t.conn.frame_handlers (get_ws_opcode pack))
          as (λ o. Leaves P (elim o [ some (some handler) ↦ run handler pack t | _ ↦ undefined ])) [
            | none ↦ tt
            | some none ↦ tt
            | some (some handler) ↦ runs handler pack t ht
          ]
