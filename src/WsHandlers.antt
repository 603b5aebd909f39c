-- ===== src/WsHandlers.antt =====
-- examples/ws/src/ws_simple: the frame handlers and the buffers that they fill.
pub mod Answers
pub mod Chains
pub mod Continuation
pub mod Errors
pub mod TextFrames
use Prim.Native.Nat.{bit_and}
use arclaunch.Prelude.{
  ℕ, zero, suc, ◌+◌, Bool, true, false, not, ◌&&◌, Option, none, some, List, [], ◌∷◌, ◌++◌, Exec,
  Outcome, done, undefined, ◌>>=◌, ◌>>◌, pure, ltb, ◌==◌, if◌then◌else◌, String,
}
use arclaunch.Prelude.Bytes.{le_bytes, le_value}
use arclaunch.Text.{codes}
use arclaunch.WsFrame.{
  WsFrame, load, store, swap_short, get_ws_payload_size, ws_frame_is_final, ws_text, ws_binary,
  ws_close, ws_pong,
}
use arclaunch.WsConnection.{
  Connection, SimpleBuffer, Transport, Peer, Handler, ws_simple_continuation_handler,
  ws_simple_text_handler, ws_simple_binary_handler, ws_simple_close_handler, ws_simple_ping_handler,
  ws_simple_pong_handler, bytes_at, defined, ws_tx_frame,
}

abbrev pub protocol_error : ℕ
protocol_error = 1002

abbrev pub zeros : ℕ → List ℕ
zeros zero = []
zeros (suc n) = 0 ∷ zeros n

-- The `n` bytes that strncpy writes; `none` if it reads past the end of the source.
unfoldable pub strncpy : ℕ → List ℕ → Option (List ℕ)
strncpy zero src = some []
strncpy (suc n) [] = none
strncpy (suc n) (b ∷ src) =
    let rest = strncpy n src in
    if b == 0
    then some (zeros (suc n))
    else elim rest [ none ↦ none | some bytes ↦ some (b ∷ bytes) ]

abbrev pub strncpy_at : Option (List ℕ) → ℕ → Option (List ℕ)
strncpy_at none n = if n == 0 then some [] else none
strncpy_at (some bytes) n = strncpy n bytes

module _ {W : Type 0} where
  abbrev pub set_buffer : List SimpleBuffer → Exec (Peer W) (Unit {0})
  set_buffer chain s = done tt (record s { conn = record s.conn { buffer = some chain } })

  abbrev pub the_buffer : Exec (Peer W) (List SimpleBuffer)
  the_buffer s = elim s.conn.buffer [ none ↦ undefined | some chain ↦ done chain s ]

  unfoldable pub ws_simple_clear_buffer : Bool → Exec (Peer W) (Unit {0})
  ws_simple_clear_buffer finished = do
    chain ← the_buffer
    elim chain [
      | [] ↦ pure tt
      | first ∷ prev ↦
          if first.is_complete == 0 && not finished then set_buffer (first ∷ []) else set_buffer []
    ]

module _ {W : Type 0} (io : Transport W) where
  -- The struct close_frame of a handler: the code in network order, a message of `n` characters, and
  -- a byte of padding.
  unfoldable pub send_error : ℕ → String → Exec (Peer W) (Unit {0})
  send_error n message = do
    text ← defined io (strncpy n (codes message ++ 0 ∷ []))
    ws_tx_frame io ws_close
        (some (le_bytes 2 (swap_short protocol_error) ++ text ++ io.stack 0 ∷ [])) (n + 3)

  -- `type` is never set: it is what the first four bytes of the memory from malloc hold.
  abbrev pub new_buffer : WsFrame → (ℕ → ℕ) → SimpleBuffer
  new_buffer frame content =
      let frame_size = get_ws_payload_size frame in
      record {
        type = le_value (load 4 0 io.heap);
        nbytes = frame_size;
        nalloc = frame_size;
        is_complete = ws_frame_is_final frame;
        content = content;
      }

  unfoldable pub text_handler : WsFrame → Exec (Peer W) (Unit {0})
  text_handler frame = do
    chain ← the_buffer
    let open_text = (do
      text ← defined io (strncpy_at frame.payload (get_ws_payload_size frame))
      set_buffer (new_buffer frame (store 0 text io.heap) ∷ chain))
    elim chain [
      | [] ↦ open_text
      | prev ∷ older ↦
          if prev.is_complete == 0
          then send_error 57 "received text frame while waiting for continuation frames"
          else open_text
    ]

  -- The payload is not copied.
  unfoldable pub binary_handler : WsFrame → Exec (Peer W) (Unit {0})
  binary_handler frame = do
    chain ← the_buffer
    elim chain [
      | [] ↦ (λ s. undefined)
      | prev ∷ older ↦
          if prev.is_complete == 0
          then send_error 59 "received binary frame while waiting for continuation frames"
          else set_buffer (new_buffer frame io.heap ∷ prev ∷ older)
    ]

  -- realloc, where the buffer is too small.
  abbrev pub grown : SimpleBuffer → ℕ → SimpleBuffer
  grown buff frame_size =
      if ltb buff.nalloc (buff.nbytes + frame_size)
      then record buff {
        nalloc = buff.nbytes + frame_size;
        content = λ i. if ltb i buff.nalloc then buff.content i else io.heap i;
      }
      else buff

  abbrev pub appended : SimpleBuffer → ℕ → List ℕ → SimpleBuffer
  appended buff frame_size bytes = record buff {
    content = store buff.nbytes bytes buff.content;
    nbytes = buff.nbytes + frame_size;
  }

  unfoldable pub append_payload : SimpleBuffer → WsFrame → Exec (Peer W) SimpleBuffer
  append_payload buff frame =
      let frame_size = get_ws_payload_size frame in
      if buff.type == ws_text
      then (do
        text ← defined io (strncpy_at frame.payload frame_size)
        pure (appended buff frame_size text))
      else if buff.type == ws_binary
      then (do
        bytes ← defined io (bytes_at frame.payload frame_size)
        pure (appended buff frame_size bytes))
      else pure buff

  unfoldable pub continuation_handler : WsFrame → Exec (Peer W) (Unit {0})
  continuation_handler frame = do
    chain ← the_buffer
    elim chain [
      | [] ↦ (λ s. undefined)
      | buff ∷ older ↦
          if not (buff.is_complete == 0)
          then send_error 65 "received continuation frame while waiting for initial data frame"
          else (do
            filled ← append_payload (grown buff (get_ws_payload_size frame)) frame
            set_buffer (record filled { is_complete = ws_frame_is_final frame } ∷ older))
    ]

  unfoldable pub close_handler : WsFrame → Exec (Peer W) (Unit {0})
  close_handler frame s =
      let t : Peer W = record s { conn = record s.conn { received_close = true } } in
      if s.conn.transmitted_close
      then done tt t
      else (do
        ws_tx_frame io ws_close frame.payload (get_ws_payload_size frame)
        λ u. done tt (record u { conn = record u.conn { transmitted_close = true } }))
          t

  unfoldable pub ping_handler : WsFrame → Exec (Peer W) (Unit {0})
  ping_handler frame = ws_tx_frame io ws_pong frame.payload (get_ws_payload_size frame)

  unfoldable pub run_handler : Handler → WsFrame → Exec (Peer W) (Unit {0})
  run_handler ws_simple_continuation_handler frame = continuation_handler frame
  run_handler ws_simple_text_handler frame = text_handler frame
  run_handler ws_simple_binary_handler frame = binary_handler frame
  run_handler ws_simple_close_handler frame = close_handler frame
  run_handler ws_simple_ping_handler frame = ping_handler frame
  run_handler ws_simple_pong_handler frame = pure tt
