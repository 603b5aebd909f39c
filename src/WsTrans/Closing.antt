-- ===== src/WsTrans/Closing.antt =====
-- ws_trans when the other side closes the connection.
use arclaunch.Prelude.{
  ℕ, ◌≤◌, ◌≡◌, refl, true, false, some, Option, ◌∙◌, List, [], ◌∷◌, ◌++◌, done, ◌>>=◌, length,
  arith, All, get_elem?,
}
use arclaunch.Prelude.Bytes.{IsByte}
use arclaunch.WsFrame.{WsFrame, ws_close}
use arclaunch.WsConnection.{
  Connection, Handler, Transport, Peer, ws_simple_close_handler, receive_frame, ws_rx_frame,
  make_ws_fd_server_connection,
}
use arclaunch.WsConnection.Rfc.{client_frame, server_frame}
use arclaunch.WsConnection.Transmit.{IsTransport}
use arclaunch.WsConnection.Sent.{IsStream}
use arclaunch.WsConnection.Receive.{IsSource}
use arclaunch.WsConnection.Received.{Carries, receive_frame-client_frame}
use arclaunch.WsHandlers.{run_handler, ws_simple_clear_buffer}
use arclaunch.WsHandlers.Answers.{close_handler-once}
use arclaunch.WsTrans.{
  Ready, forward_socket, trans_round, trans_loop, main, open_memory, Rounds, here, next,
}
use arclaunch.SharedMem.{Shm, open_shared_memory}
use arclaunch.Text.{Text}

-- The handler that the table has for the opcode is run.
pub ws_rx_frame-handler :
    {W : Type 0} (io : Transport W) (op : ℕ) (f : WsFrame) (h : Handler) (payload : List ℕ)
    (s t : Peer W)
    → receive_frame io s ≡ done f t
    → Carries f op payload
    → get_elem? t.conn.frame_handlers op ≡ some (some h)
    → ws_rx_frame io (run_handler io) s ≡ run_handler io h f t
unfolding ws_rx_frame
ws_rx_frame-handler io op f h payload s t e carries found = rw (◌>>=◌, e, carries.opcode, found)

-- The loop ends where the connection is closed.
loop_closed :
    {W : Type 0} (io : Transport W) (rs : List Ready) (s : Peer W)
    → s.conn.received_close ≡ true
    → trans_loop io rs s ≡ done tt s
unfolding trans_loop
loop_closed io [] s closed = rw closed
loop_closed io (r ∷ rs) s closed = rw closed

loop_step :
    {W : Type 0} (io : Transport W) (r : Ready) (rs : List Ready) (s t : Peer W)
    → s.conn.received_close ≡ false
    → trans_round io r s ≡ done tt t
    → trans_loop io (r ∷ rs) s ≡ trans_loop io rs t
unfolding trans_loop
loop_step io r rs s t open_conn e = rw (◌>>=◌, e, open_conn)

goes_on :
    {W : Type 0} (io : Transport W) (before rs : List Ready) (s t : Peer W)
    → Rounds io before s t
    → trans_loop io (before ++ rs) s ≡ trans_loop io rs t
goes_on io _ rs s _ here = refl
goes_on io _ rs s t (next {r = r} {rs = before} {t = u} open_conn e rounds) =
    loop_step io r (before ++ rs) s u open_conn e ∙ goes_on io before rs u t rounds

module _ {W : Type 0} (io : Transport W) (transport : IsTransport io) (stream : IsStream io)
    (feed : List ℕ → W → W) (source : IsSource io 4 feed) where
  abbrev pub closed_conn : Connection
  closed_conn = record (make_ws_fd_server_connection 3 4) {
    received_close = true;
    transmitted_close = true;
  }

  socket_closed :
      (a b c d : ℕ) (payload others : List ℕ) (w : W)
      → All IsByte (a ∷ b ∷ c ∷ d ∷ [])
      → All IsByte payload
      → length payload ≤ 125
      → forward_socket io (record {
        conn = make_ws_fd_server_connection 3 4;
        world = feed (client_frame a b c d ws_close payload ++ others) w;
      })
        ≡ done tt (record {
          conn = closed_conn;
          world = io.write 3 (server_frame ws_close payload) (feed others w);
        })
  unfolding forward_socket run_handler
  socket_closed a b c d payload others w mask bytes le =
      let s : Peer W = record {
        conn = make_ws_fd_server_connection 3 4;
        world = feed (client_frame a b c d ws_close payload ++ others) w;
      } in
      let (f, received, carries) =
        receive_frame-client_frame io ws_close a b c d payload s 4 feed others w (omega arith) mask
          bytes (omega arith) refl source refl in
      let t : Peer W = record s { world = feed others w } in
      rw (
        ◌>>=◌,
        ws_rx_frame-handler io ws_close f ws_simple_close_handler payload s t received carries refl,
        close_handler-once io f payload 3 t transport stream carries refl refl le,
      )

  -- When the shared memory has been opened and some rounds have left the connection as it was made,
  -- without a received buffer, and a masked close frame of RFC 6455 with a payload of at most 125 bytes
  -- is what the server reads next, in a round without standard input: then ws_trans ends with status
  -- 0, whatever `select` would report later. It has answered with a close frame of the same payload,
  -- and has read no further.
  pub main-close :
      (shm : Shm W) (program name : Text) (args : List Text) (fd : Option ℕ)
      (before rs : List Ready) (a b c d : ℕ) (payload others : List ℕ) (u v w : W)
      → open_shared_memory shm name u ≡ done fd v
      → Rounds io before
          (record { conn = make_ws_fd_server_connection 3 4; world = v })
          (record {
            conn = make_ws_fd_server_connection 3 4;
            world = feed (client_frame a b c d ws_close payload ++ others) w;
          })
      → All IsByte (a ∷ b ∷ c ∷ d ∷ [])
      → All IsByte payload
      → length payload ≤ 125
      → main io shm
          (program ∷ name ∷ args)
          (before ++ record { stdin = false; socket = true } ∷ rs)
          u
        ≡ done 0 (record {
          conn = closed_conn;
          world = io.write 3 (server_frame ws_close payload) (feed others w);
        })
  unfolding main open_memory trans_round ws_simple_clear_buffer
  main-close shm program name args fd before rs a b c d payload others u v w opens rounds mask bytes
        le =
      let t : Peer W = record {
        conn = closed_conn;
        world = io.write 3 (server_frame ws_close payload) (feed others w);
      } in
      rw (
        ◌>>=◌,
        opens,
        goes_on io before (record { stdin = false; socket = true } ∷ rs) _ _ rounds,
        loop_step io (record { stdin = false; socket = true }) rs _ t refl
            (socket_closed a b c d payload others w mask bytes le),
        loop_closed io rs t refl,
      )
