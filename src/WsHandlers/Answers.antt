-- ===== src/WsHandlers/Answers.antt =====
-- The frames that a server sends back to a close frame and to a ping.
use arclaunch.Prelude.{
  Bool-cases, inl, inr, ℕ, ◌≤◌, ◌<◌, ◌≡◌, ap, ◌∙◌, true, some, List, done, ◌>>=◌, length, arith,
  if◌then◌else◌,
}
use arclaunch.WsFrame.{WsFrame, get_ws_payload_size, ws_close}
use arclaunch.WsConnection.{ws_server, Transport, Peer, ws_tx_frame}
use arclaunch.WsConnection.Rfc.{server_frame}
use arclaunch.WsConnection.Transmit.{IsTransport}
use arclaunch.WsConnection.Sent.{IsStream, ws_tx_frame-server_frame}
use arclaunch.WsConnection.Received.{Carries}
use arclaunch.WsHandlers.{close_handler}

module _ {W : Type 0} (io : Transport W) (h : IsTransport io) (stream : IsStream io) where
  -- The payload of a frame, sent back by a server.
  pub sent_back :
      (op : ℕ) (f : WsFrame) (code : ℕ) (payload : List ℕ) (fd : ℕ) (s : Peer W)
      → op < 16
      → Carries f code payload
      → s.conn.endpoint ≡ ws_server
      → s.conn.tx_data ≡ some fd
      → length payload ≤ 125
      → ws_tx_frame io op f.payload (get_ws_payload_size f) s
        ≡ done tt (record s { world = io.write fd (server_frame op payload) s.world })
  sent_back op f code payload fd s lt carries server out le =
      ap (λ p. ws_tx_frame io op p (get_ws_payload_size f) s) carries.payload
      ∙ ap (λ n. ws_tx_frame io op (some payload) n s) carries.size
      ∙ ws_tx_frame-server_frame io op payload fd s h stream lt server out le

-- A server answers the first close frame with a close frame of the same payload, and marks the
-- connection as closed in both directions; after it has sent one, it only notes what it received.
pub close_handler-once :
    {W : Type 0} (io : Transport W) (f : WsFrame) (payload : List ℕ) (fd : ℕ) (s : Peer W)
    → IsTransport io
    → IsStream io
    → Carries f ws_close payload
    → s.conn.endpoint ≡ ws_server
    → s.conn.tx_data ≡ some fd
    → length payload ≤ 125
    → close_handler io f s
      ≡ done tt (record {
        conn = record s.conn { received_close = true; transmitted_close = true };
        world =
            (if s.conn.transmitted_close
              then s.world
              else io.write fd (server_frame ws_close payload) s.world);
      })
unfolding close_handler
close_handler-once io f payload fd s h stream carries server out le =
    elim (Bool-cases s.conn.transmitted_close) [
      | inl sent ↦ rw sent
      | inr not_sent ↦
          let t = record s { conn = record s.conn { received_close = true } } in
          let back =
            sent_back io h stream ws_close f ws_close payload fd t (omega arith) carries server out
              le in
          rw (◌>>=◌, back, not_sent)
    ]
