-- ===== src/WsConnection/Loopback.antt =====
-- A frame that one side sends and the other receives.
use Prim.Native.Nat.{◌/◌, ◌%◌}
use mathlib.Core.List.{append_assoc, append-nil}
use arclaunch.Prelude.{
  ℕ, ◌+◌, ◌≤◌, ◌<◌, ◌≡◌, refl, ap, sym, ◌∙◌, subst, false, some, List, [], ◌∷◌, ◌++◌, done, length,
  arith,
}
use arclaunch.WsFrame.{WsFrame, store, get_ws_payload_size, ws_frame_is_masked, unmask_ws_frame}
use arclaunch.WsFrame.Sizes.{masked_lem}
use arclaunch.WsConnection.{ws_server, Transport, Peer, receive_frame, ws_tx_frame}
use arclaunch.WsConnection.Rfc.{rfc_code, rfc_extension, server_frame}
use arclaunch.WsConnection.Transmit.{IsTransport}
use arclaunch.WsConnection.Sent.{IsStream, ws_tx_frame-server_frame}
use arclaunch.WsConnection.Receive.{IsSource, short_frame, full_frame, receive_done}
use arclaunch.WsConnection.Received.{
  Carries, header_sizes, frame_sizes, extension_stored, final_opcode,
}

kept_unmasked : (f : WsFrame) → ws_frame_is_masked f ≡ false → unmask_ws_frame f ≡ some f
unfolding unmask_ws_frame
kept_unmasked f e = rw e

module _ {W : Type 0} (io : Transport W) (op : ℕ) (lt : op < 16) (payload : List ℕ)
    (le : length payload ≤ 0xffff) where
  abbrev taken : WsFrame
  taken =
      full_frame io (128 + op) (rfc_code (length payload)) (rfc_extension (length payload)) payload

  taken_unmasked : ws_frame_is_masked taken ≡ false
  taken_unmasked = ground (arith, masked_lem taken)

  stored :
      (v : ℕ → ℕ)
      → 125 < length payload
      → (store 0 (rfc_extension (length payload)) v 0 ≡ length payload / 256)
        × (store 0 (rfc_extension (length payload)) v 1 ≡ length payload % 256)
  stored v lo =
      subst
        (λ ext. (store 0 ext v 0 ≡ length payload / 256) × (store 0 ext v 1 ≡ length payload % 256))
        (append-nil (rfc_extension (length payload))) (extension_stored (length payload) [] v lo le)

  taken-Carries : Carries taken op payload
  taken-Carries = record {
    opcode = (final_opcode taken op lt refl).0;
    final = (final_opcode taken op lt refl).1;
    unmasked = taken_unmasked;
    size =
        frame_sizes taken 0 (length payload) (omega arith) le (omega arith)
          (stored (short_frame io 0 0).v);
    payload = refl;
  }

  taken_lem :
      (s : Peer W) (fd : ℕ) (feed : List ℕ → W → W) (others : List ℕ) (w : W)
      → s.conn.rx_data ≡ some fd
      → IsSource io fd feed
      → s.world ≡ feed (server_frame op payload ++ others) w
      → receive_frame io s ≡ done taken (record s { world = feed others w })
  unfolding get_ws_payload_size
  taken_lem s fd feed others w rx source e =
      let n = length payload in
      let tail = (rfc_extension n ++ payload) ++ others in
      receive_done io s fd (128 + op) (rfc_code n) (length (rfc_extension n)) n (rfc_extension n)
        payload _ (feed tail w) (feed (payload ++ others) w) (feed others w) rx
        (ap (λ v. io.read fd 2 v) e ∙ source.reads ((128 + op) ∷ rfc_code n ∷ []) tail w)
        (header_sizes (short_frame io (128 + op) (rfc_code n)) 0 n (omega arith) le (omega arith)
          ∙ omega arith)
        (ap (λ t. io.read fd (length (rfc_extension n)) (feed t w))
            (append_assoc (rfc_extension n) payload others)
          ∙ source.reads (rfc_extension n) (payload ++ others) w)
        (frame_sizes taken 0 n (omega arith) le (omega arith) (stored (short_frame io 0 0).v))
        (source.reads payload others w) refl (kept_unmasked taken taken_unmasked)

-- An empty pipe: what is written into it is what is read of it next.
pub record IsEmptyPipe {W : Type 0} (io : Transport W) (fd : ℕ) (feed : List ℕ → W → W) (w : W)
    : Type 0 where
  pub writes : (bytes : List ℕ) → io.write fd bytes w ≡ feed bytes w
  pub nothing : feed [] w ≡ w

-- A frame that a server writes into an empty pipe, with a payload of at most 125 bytes, is received
-- at the other end with its opcode, its size and its payload, final and not masked, and the pipe is
-- empty again.
pub receive_frame-ws_tx_frame :
    {W : Type 0} (io : Transport W) (op : ℕ) (payload : List ℕ) (out into : ℕ)
    (feed : List ℕ → W → W) (s r : Peer W)
    → IsTransport io
    → IsStream io
    → IsSource io into feed
    → IsEmptyPipe io out feed s.world
    → op < 16
    → s.conn.endpoint ≡ ws_server
    → s.conn.tx_data ≡ some out
    → r.conn.rx_data ≡ some into
    → length payload ≤ 125
    → (u : Peer W) × (f : WsFrame) × (ws_tx_frame io op (some payload) (length payload) s
        ≡ done tt u)
      × (receive_frame io (record r { world = u.world }) ≡ done f (record r { world = s.world }))
      × Carries f op payload
receive_frame-ws_tx_frame io op payload out into feed s r h stream source pipe lt server tx rx le =
    let u : Peer _ = record s { world = io.write out (server_frame op payload) s.world } in
    let fits : length payload ≤ 0xffff = omega arith in
    (
      u,
      taken io op lt payload fits,
      ws_tx_frame-server_frame io op payload out s h stream lt server tx le,
      taken_lem io op lt payload fits (record r { world = u.world }) into feed [] s.world rx source
            (pipe.writes (server_frame op payload)
              ∙ ap (λ bytes. feed bytes s.world) (sym (append-nil (server_frame op payload))))
          ∙ ap (λ w. done (taken io op lt payload fits) (record r { world = w })) pipe.nothing,
      taken-Carries io op lt payload fits,
    )
