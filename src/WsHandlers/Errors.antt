-- ===== src/WsHandlers/Errors.antt =====
-- Data frames that come out of turn.
use Prim.Native.Nat.{◌/◌, ◌%◌}
use arclaunch.Prelude.{
  ℕ, ◌+◌, ◌≤◌, ◌≡◌, refl, sym, true, false, some, List, [], ◌∷◌, ◌++◌, Outcome, done, ◌>>=◌, length,
  arith, ◌==◌, String,
}
use arclaunch.Text.{codes}
use arclaunch.WsFrame.{WsFrame, ws_close}
use arclaunch.WsConnection.{ws_server, SimpleBuffer, Transport, Peer}
use arclaunch.WsConnection.Rfc.{server_frame}
use arclaunch.WsConnection.Transmit.{IsTransport}
use arclaunch.WsConnection.Sent.{IsStream, ws_tx_frame-server_frame}
use arclaunch.WsHandlers.{strncpy, send_error, text_handler, binary_handler, continuation_handler}

-- A close frame of RFC 6455 with the code 1002, protocol error, and a reason.
abbrev pub error_frame : List ℕ → List ℕ
error_frame reason = server_frame ws_close (1002 / 256 ∷ 1002 % 256 ∷ reason)

abbrev pub text_reason : List ℕ
text_reason = codes "received text frame while waiting for continuation frames"

abbrev pub binary_reason : List ℕ
binary_reason = codes "received binary frame while waiting for continuation frames"

-- With the zero byte that the handler sends.
abbrev pub continuation_reason : List ℕ
continuation_reason =
    codes "received continuation frame while waiting for initial data frame" ++ 0 ∷ []

-- A close frame with the reason and the padding is sent, and nothing else changes.
abbrev pub answered : {W : Type 0} → Transport W → ℕ → Peer W → List ℕ → Outcome (Peer W) (Unit {0})
answered io fd s reason =
    done tt (record s { world = io.write fd (error_frame (reason ++ io.stack 0 ∷ [])) s.world })

module _ {W : Type 0} (io : Transport W) (h : IsTransport io) (stream : IsStream io) where
  error_sent :
      (n : ℕ) (message : String) (text : List ℕ) (fd : ℕ) (s : Peer W)
      → strncpy n (codes message ++ 0 ∷ []) ≡ some text
      → length (1002 / 256 ∷ 1002 % 256 ∷ text ++ io.stack 0 ∷ []) ≡ n + 3
      → n + 3 ≤ 125
      → s.conn.endpoint ≡ ws_server
      → s.conn.tx_data ≡ some fd
      → send_error io n message s ≡ answered io fd s text
  unfolding send_error
  error_sent n message text fd s copied size le server out =
      rw (◌>>=◌, copied, sym size)
        (ws_tx_frame-server_frame io ws_close _ fd s h stream (omega arith) server out
          (omega (arith, size)))

  text_error :
      (fd : ℕ) (s : Peer W)
      → s.conn.endpoint ≡ ws_server
      → s.conn.tx_data ≡ some fd
      → send_error io 57 "received text frame while waiting for continuation frames" s
        ≡ answered io fd s text_reason
  unfolding strncpy
  text_error fd s server out =
      error_sent 57 "received text frame while waiting for continuation frames" _ fd s refl refl
        (omega arith) server out

  binary_error :
      (fd : ℕ) (s : Peer W)
      → s.conn.endpoint ≡ ws_server
      → s.conn.tx_data ≡ some fd
      → send_error io 59 "received binary frame while waiting for continuation frames" s
        ≡ answered io fd s binary_reason
  unfolding strncpy
  binary_error fd s server out =
      error_sent 59 "received binary frame while waiting for continuation frames" _ fd s refl refl
        (omega arith) server out

  pub continuation_error :
      (fd : ℕ) (s : Peer W)
      → s.conn.endpoint ≡ ws_server
      → s.conn.tx_data ≡ some fd
      → send_error io 65 "received continuation frame while waiting for initial data frame" s
        ≡ answered io fd s continuation_reason
  unfolding strncpy
  continuation_error fd s server out =
      error_sent 65 "received continuation frame while waiting for initial data frame" _ fd s refl
        refl (omega arith) server out

refused :
    {W : Type 0} (io : Transport W) (f : WsFrame) (first : SimpleBuffer) (older : List SimpleBuffer)
    (s : Peer W)
    → s.conn.buffer ≡ some (first ∷ older)
    → (first.is_complete == 0) ≡ true
    → ((o : Outcome (Peer W) (Unit {0}))
        → send_error io 57 "received text frame while waiting for continuation frames" s ≡ o
        → text_handler io f s ≡ o)
      × ((o : Outcome (Peer W) (Unit {0}))
          → send_error io 59 "received binary frame while waiting for continuation frames" s ≡ o
          → binary_handler io f s ≡ o)
unfolding text_handler binary_handler
refused io f first older s chain waits =
    (λ o e. rw (◌>>=◌, chain, waits) e, λ o e. rw (◌>>=◌, chain, waits) e)

continuation_refused :
    {W : Type 0} (io : Transport W) (f : WsFrame) (first : SimpleBuffer) (older : List SimpleBuffer)
    (s : Peer W) (o : Outcome (Peer W) (Unit {0}))
    → s.conn.buffer ≡ some (first ∷ older)
    → (first.is_complete == 0) ≡ false
    → send_error io 65 "received continuation frame while waiting for initial data frame" s ≡ o
    → continuation_handler io f s ≡ o
unfolding continuation_handler
continuation_refused io f first older s o chain complete e = rw (◌>>=◌, chain, complete) e

-- Where the newest buffer of a server still waits for continuation frames, a text frame and a binary
-- frame are answered with a close frame of code 1002 and a reason, which ends in a byte of padding;
-- and so is a continuation frame where the newest buffer is complete. The buffers stay as they are.
pub handlers-out_of_turn :
    {W : Type 0} (io : Transport W) (f : WsFrame) (waiting complete : SimpleBuffer)
    (older : List SimpleBuffer) (fd : ℕ) (s t : Peer W)
    → IsTransport io
    → IsStream io
    → s.conn.endpoint ≡ ws_server
    → s.conn.tx_data ≡ some fd
    → s.conn.buffer ≡ some (waiting ∷ older)
    → (waiting.is_complete == 0) ≡ true
    → t.conn.endpoint ≡ ws_server
    → t.conn.tx_data ≡ some fd
    → t.conn.buffer ≡ some (complete ∷ older)
    → (complete.is_complete == 0) ≡ false
    → (text_handler io f s ≡ answered io fd s text_reason)
      × (binary_handler io f s ≡ answered io fd s binary_reason)
      × (continuation_handler io f t ≡ answered io fd t continuation_reason)
handlers-out_of_turn io f waiting complete older fd s t h stream server out chain waits server' out'
      chain' ends =
    let both = refused io f waiting older s chain waits in
    (
      both.0 _ (text_error io h stream fd s server out),
      both.1 _ (binary_error io h stream fd s server out),
      continuation_refused io f complete older t _ chain' ends
          (continuation_error io h stream fd t server' out'),
    )
