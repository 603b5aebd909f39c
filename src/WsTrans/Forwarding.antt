-- ===== src/WsTrans/Forwarding.antt =====
-- ws_trans when a text message comes from the socket.
use arclaunch.Prelude.{
  ℕ, ◌≤◌, ◌≡◌, refl, ap, true, false, not, some, List, [], ◌∷◌, ◌++◌, done, ◌>>=◌, length, arith,
  All, get_elem?, ◌==◌,
}
use arclaunch.Prelude.Bytes.{IsByte, le_bytes}
use arclaunch.WsFrame.{load, ws_text}
use arclaunch.WsConnection.{SimpleBuffer, Transport, Peer, ws_simple_text_handler, simple_handlers}
use arclaunch.WsConnection.Rfc.{client_frame}
use arclaunch.WsConnection.Receive.{IsSource}
use arclaunch.WsConnection.Received.{receive_frame-client_frame}
use arclaunch.WsHandlers.{run_handler, ws_simple_clear_buffer}
use arclaunch.WsHandlers.TextFrames.{text_of, text_buffer, text_handler_first, load_text}
use arclaunch.WsTrans.{forward_socket, write_buffers}
use arclaunch.WsTrans.Closing.{ws_rx_frame-handler}

module _ {W : Type 0} (io : Transport W) where
  write_one :
      (b : SimpleBuffer) (s : Peer W)
      → write_buffers io (b ∷ []) s
        ≡ done tt (record s {
          world = io.write 1 (load b.nbytes 0 b.content) (io.write 1 (le_bytes 8 b.nbytes) s.world);
        })
  unfolding write_buffers
  write_one b s = refl

  clear_complete :
      (b : SimpleBuffer) (s : Peer W)
      → s.conn.buffer ≡ some (b ∷ [])
      → not (b.is_complete == 0) ≡ true
      → ws_simple_clear_buffer {W = W} false s
        ≡ done tt (record s { conn = record s.conn { buffer = some [] } })
  unfolding ws_simple_clear_buffer
  clear_complete b s e complete =
      let no : (b.is_complete == 0) ≡ false = ground (arith, complete) in rw (◌>>=◌, e, no)

  -- ws_trans writes a text message of RFC 6455 of at most 0xffff bytes, which arrives masked and in one
  -- frame, to the standard output: its length as eight bytes, then the text, up to its first zero
  -- byte, and zeros from there on. The buffer is empty again.
  pub forward_socket-text :
      (a b c d : ℕ) (payload others : List ℕ) (s : Peer W) (fd : ℕ) (feed : List ℕ → W → W) (w : W)
      → All IsByte (a ∷ b ∷ c ∷ d ∷ [])
      → All IsByte payload
      → length payload ≤ 0xffff
      → s.conn.rx_data ≡ some fd
      → s.conn.buffer ≡ some []
      → s.conn.frame_handlers ≡ simple_handlers
      → IsSource io fd feed
      → s.world ≡ feed (client_frame a b c d ws_text payload ++ others) w
      → forward_socket io s
        ≡ done tt (record s {
          world =
              io.write 1
                (text_of payload)
                (io.write 1 (le_bytes 8 (length payload)) (feed others w));
        })
  unfolding forward_socket run_handler
  forward_socket-text a b c d payload others s fd feed w mask bytes le rx empty table source e =
      let (f, received, carries) =
        receive_frame-client_frame io ws_text a b c d payload s fd feed others w (omega arith) mask
          bytes le rx source e in
      let t : Peer W = record s { world = feed others w } in
      let u : Peer W = record t {
        conn = record s.conn { buffer = some (text_buffer io f payload ∷ []) };
      } in
      let v : Peer W = record u {
        world =
            io.write 1 (load (length payload) 0 (text_buffer io f payload).content)
              (io.write 1 (le_bytes 8 (length payload)) (feed others w));
      } in
      rw (
        ◌>>=◌,
        ws_rx_frame-handler io ws_text f ws_simple_text_handler payload s t received carries
            (ap (λ hs. get_elem? hs ws_text) table),
        text_handler_first io f ws_text payload t carries empty,
        write_one (text_buffer io f payload) u,
        clear_complete (text_buffer io f payload) v refl carries.final,
        load_text io f payload,
        empty,
      )
