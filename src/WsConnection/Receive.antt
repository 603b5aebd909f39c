-- ===== src/WsConnection/Receive.antt =====
-- What ws_rx_frame makes of a frame of RFC 6455 before it calls the handler.
use Prim.Native.Nat.{◌%◌}
use arclaunch.Prelude.{
  ℕ, suc, ◌+◌, ◌-◌, ◌≡◌, refl, ap, sym, ◌∙◌, none, some, List, [], ◌∷◌, ◌++◌, done, ◌>>=◌, length,
  All, arith,
}
use arclaunch.Prelude.Bytes.{IsByte, xor_twice}
use arclaunch.WsFrame.{
  WsFrame, load, store, get_ws_payload_size, get_ws_header_size, xor_payload, unmask_ws_frame,
}
use arclaunch.WsConnection.{Transport, Peer, ws_fd_rx, receive_frame}
use arclaunch.WsConnection.Rfc.{rfc_mask}
use arclaunch.WsConnection.Transmit.{load_stored}

-- The loop of unmask_ws_frame goes round the mask as the RFC does.
pub xor_payload-rfc_mask :
    (mask : ℕ → ℕ) (c : ℕ) (bs : List ℕ)
    → xor_payload mask c (length bs) bs
      ≡ some (
          rfc_mask (mask (c % 4)) (mask ((c + 1) % 4)) (mask ((c + 2) % 4)) (mask ((c + 3) % 4)) bs)
unfolding xor_payload
xor_payload-rfc_mask mask c [] = refl
xor_payload-rfc_mask mask c (b ∷ bs) =
    let around : (c + 1 + 3) % 4 ≡ c % 4 = omega arith in
    ground (arith, xor_payload-rfc_mask mask (c + 1) bs, around)

pub length-rfc_mask : (a b c d : ℕ) (bs : List ℕ) → length (rfc_mask a b c d bs) ≡ length bs
length-rfc_mask a b c d [] = refl
length-rfc_mask a b c d (x ∷ bs) = ap suc (length-rfc_mask b c d a bs)

pub rfc_mask-rfc_mask :
    (a b c d : ℕ) (bs : List ℕ)
    → IsByte a
    → IsByte b
    → IsByte c
    → IsByte d
    → All IsByte bs
    → rfc_mask a b c d (rfc_mask a b c d bs) ≡ bs
rfc_mask-rfc_mask a b c d [] ha hb hc hd h = refl
rfc_mask-rfc_mask a b c d (x ∷ bs) ha hb hc hd h =
    rw (xor_twice x a h.0 ha, rfc_mask-rfc_mask b c d a bs hb hc hd ha h.1)

-- The bytes that `feed` puts in front of what comes from the descriptor are read in order.
pub record IsSource {W : Type 0} (io : Transport W) (fd : ℕ) (feed : List ℕ → W → W) : Type 0 where
  pub reads :
      (first others : List ℕ) (w : W)
      → io.read fd (length first) (feed (first ++ others) w) ≡ (first, feed others w)

module _ {W : Type 0} (io : Transport W) where
  abbrev pub short_frame : ℕ → ℕ → WsFrame
  short_frame b0 b1 = record { opcode = b0; size = b1; v = λ i. io.stack (8 + i); payload = none }

  abbrev pub full_frame : ℕ → ℕ → List ℕ → List ℕ → WsFrame
  full_frame b0 b1 header bytes = record {
    opcode = b0;
    size = b1;
    v = store 0 header (short_frame b0 b1).v;
    payload = some bytes;
  }

  fd_rx_done :
      (s : Peer W) (fd n : ℕ) (bytes : List ℕ) (w : W)
      → s.conn.rx_data ≡ some fd
      → io.read fd n s.world ≡ (bytes, w)
      → ws_fd_rx io n s ≡ done bytes (record s { world = w })
  unfolding ws_fd_rx
  fd_rx_done s fd n bytes w rx e = rw (rx, e)

  pub receive_done :
      (s : Peer W) (fd b0 b1 k n : ℕ) (header bytes : List ℕ) (g : WsFrame) (w1 w2 w3 : W)
      → s.conn.rx_data ≡ some fd
      → io.read fd 2 s.world ≡ (b0 ∷ b1 ∷ [], w1)
      → get_ws_header_size (short_frame b0 b1) ≡ k + 2
      → io.read fd k w1 ≡ (header, w2)
      → get_ws_payload_size (record (full_frame b0 b1 header []) { payload = none }) ≡ n
      → io.read fd n w2 ≡ (bytes, w3)
      → length bytes ≡ n
      → unmask_ws_frame (full_frame b0 b1 header bytes) ≡ some g
      → receive_frame io s ≡ done g (record s { world = w3 })
  unfolding receive_frame
  receive_done s fd b0 b1 k n header bytes g w1 w2 w3 rx r1 e1 r2 e2 r3 len e3 =
      let same : k + 2 - 2 ≡ k = omega arith in
      let all : load n 0 (store 0 bytes io.heap) ≡ bytes =
        ap (λ m. load m 0 (store 0 bytes io.heap)) (sym len) ∙ load_stored 0 bytes io.heap in
      rw (
        receive_frame,
        ◌>>=◌,
        fd_rx_done s fd 2 (b0 ∷ b1 ∷ []) w1 rx r1,
        e1,
        same,
        fd_rx_done (record s { world = w1 }) fd k header w2 rx r2,
        e2,
        fd_rx_done (record s { world = w2 }) fd n bytes w3 rx r3,
        e2,
        all,
        e3,
      )
