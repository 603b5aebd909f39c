-- ===== src/Samples/Frames.antt =====
-- The frames and the connections of examples/ws at concrete bytes.
use Prim.Native.Nat.{◌%◌}
use arclaunch.Prelude.{
  ℕ, ◌≤◌, ◌≡◌, refl, true, false, some, none, List, [], ◌∷◌, Outcome, done, thrown, exited, no_fuel,
  undefined, ◌≢◌, arith, ◌==◌, if◌then◌else◌,
}
use arclaunch.WsFrame.{
  WsFrame, load, reversell, get_ws_frame_mask, get_ws_header_size, xor_payload, xor_frame,
  get_ws_payload_size, ws_frame_is_masked, ws_frame_is_final, get_ws_opcode, mask_ws_frame,
  unmask_ws_frame, ws_close, ws_text,
}
use arclaunch.WsFrame.Sizes.{IsFrame}
use arclaunch.WsFrame.Masks.{unmask_ws_frame-mask_ws_frame}
use arclaunch.WsConnection.{
  SimpleBuffer, Peer, make_ws_fd_server_connection, make_ws_fd_client_connecion, ws_tx_frame,
  receive_frame, ws_fd_rx, ws_rx_frame, copy_payload,
}
use arclaunch.WsConnection.Sent.{ws_tx_frame-server_frame, ws_tx_frame-undefined}
use arclaunch.WsConnection.Received.{Carries, receive_frame-client_frame}
use arclaunch.WsConnection.Leaves.{Leaves}
use arclaunch.WsHandlers.{
  text_handler, binary_handler, continuation_handler, zeros, strncpy, run_handler,
  ws_simple_clear_buffer,
}
use arclaunch.WsHandlers.Chains.{HasChain}
use arclaunch.WsHandlers.Continuation.{continuation_handler-added}
use arclaunch.WsHandlers.Errors.{
  answered, text_reason, binary_reason, continuation_reason, handlers-out_of_turn,
}
use arclaunch.WsTrans.{
  Ready, forward_socket, trans_round, trans_loop, main, Rounds, here, next, write_buffers,
}
use arclaunch.Text.{codes, c_string}
use arclaunch.SharedMem.{Shm, open_shared_memory, mem_name, replace_char}
use arclaunch.WsTrans.Closing.{main-close}
use arclaunch.WsTrans.Forwarding.{forward_socket-text}
use arclaunch.WsTrans.Kept.{trans_loop-HasChain}
use arclaunch.WsConnection.Loopback.{receive_frame-ws_tx_frame}
use arclaunch.Samples.Wire.{
  pipe, fill, pipe-IsTransport, pipe-IsStream, pipe-IsSource, pipe-IsEmptyPipe, Wire, wire, feed,
  wire-IsTransport, wire-IsStream, wire-IsSource,
}

abbrev empty : Wire
empty = record { input = []; output = [] }

abbrev server : Peer Wire
server = record { conn = make_ws_fd_server_connection 3 4; world = empty }

-- "Hi"
abbrev greeting : List ℕ
greeting = 72 ∷ 105 ∷ []

-- "Hi" as a client sends it.
abbrev greeted : Wire
greeted = record { input = 0x81 ∷ 0x82 ∷ 1 ∷ 2 ∷ 3 ∷ 4 ∷ 73 ∷ 107 ∷ []; output = [] }

abbrev greeted_server : Peer Wire
greeted_server = record server { world = greeted }

ws_tx_frame-server_frame_example :
    ws_tx_frame wire ws_text (some greeting) 2 server
    ≡ done tt (record server { world = record { input = []; output = 0x81 ∷ 2 ∷ 72 ∷ 105 ∷ [] } })
ws_tx_frame-server_frame_example =
    ws_tx_frame-server_frame wire ws_text greeting 3 server wire-IsTransport wire-IsStream
      (omega arith) refl refl (omega arith)

ws_tx_frame-undefined_example : ws_tx_frame wire ws_text none 0x10000 server ≡ undefined
ws_tx_frame-undefined_example =
    ws_tx_frame-undefined wire ws_text 0x10000 none server wire-IsTransport (omega arith)
      (omega arith) (omega arith)

receive_frame-client_frame_example :
    (f : WsFrame) × (receive_frame wire greeted_server ≡ done f server) × Carries f ws_text greeting
receive_frame-client_frame_example =
    receive_frame-client_frame wire ws_text 1 2 3 4 greeting greeted_server 4 feed [] empty
      (omega arith) (omega arith) (omega arith) (omega arith) refl (wire-IsSource 4) refl

abbrev full : List ℕ
full = 65 ∷ 65 ∷ zeros 124

abbrev farewell : WsFrame
farewell = record { opcode = 0x88; size = 2; v = λ i. 0x55; payload = some (3 ∷ 0xe8 ∷ []) }

farewell-Carries : Carries farewell ws_close (3 ∷ 0xe8 ∷ [])
unfolding get_ws_opcode ws_frame_is_final ws_frame_is_masked get_ws_payload_size
farewell-Carries = record {
  opcode = refl;
  final = refl;
  unmasked = refl;
  size = refl;
  payload = refl;
}

abbrev socket_ready : Ready
socket_ready = record { stdin = false; socket = true }

abbrev left : Outcome (Peer Wire) (Unit {0}) → Peer Wire
left (done a s) = s
left (thrown e s) = s
left (exited c s) = s
left undefined = server
left no_fuel = server

-- The text "Hi", a close frame of code 1000 and one more byte.
abbrev busy_server : Peer Wire
busy_server = record server {
  world = record {
    input =
        0x81 ∷ 0x82 ∷ 1 ∷ 2 ∷ 3 ∷ 4 ∷ 73 ∷ 107 ∷ 0x88 ∷ 0x82 ∷ 1 ∷ 2 ∷ 3 ∷ 4 ∷ 2 ∷ 0xea ∷ 9 ∷ [];
    output = [];
  };
}

text_round : Rounds wire (socket_ready ∷ []) busy_server (record server {
  world = record {
    input = 0x88 ∷ 0x82 ∷ 1 ∷ 2 ∷ 3 ∷ 4 ∷ 2 ∷ 0xea ∷ 9 ∷ [];
    output = 2 ∷ 0 ∷ 0 ∷ 0 ∷ 0 ∷ 0 ∷ 0 ∷ 0 ∷ 72 ∷ 105 ∷ [];
  };
})
unfolding trans_round
text_round =
    next refl
      (rw
        (forward_socket-text wire 1 2 3 4 greeting [] busy_server 4 feed
          (record { input = 0x88 ∷ 0x82 ∷ 1 ∷ 2 ∷ 3 ∷ 4 ∷ 2 ∷ 0xea ∷ 9 ∷ []; output = [] })
          (omega arith) (omega arith) (omega arith) refl refl refl (wire-IsSource 4) refl)
        refl)
      here

-- A shared memory that is there, on the descriptor 5.
abbrev shared : Shm Wire
shared = record { shm_open = λ name create w. (some 5, w); shm_unlink = λ name w. w }

opens_lem :
    open_shared_memory shared (codes "m") busy_server.world ≡ done (some 5) busy_server.world
unfolding open_shared_memory mem_name replace_char c_string
opens_lem = refl

main-close_example :
    main wire shared
      (codes "ws_trans" ∷ codes "m" ∷ [])
      (socket_ready ∷ socket_ready ∷ socket_ready ∷ [])
      busy_server.world
    ≡ done 0 (record {
      conn = record (make_ws_fd_server_connection 3 4) {
        received_close = true;
        transmitted_close = true;
      };
      world = record {
        input = 9 ∷ [];
        output = 2 ∷ 0 ∷ 0 ∷ 0 ∷ 0 ∷ 0 ∷ 0 ∷ 0 ∷ 72 ∷ 105 ∷ 0x88 ∷ 2 ∷ 3 ∷ 0xe8 ∷ [];
      };
    })
main-close_example =
    main-close wire wire-IsTransport wire-IsStream feed (wire-IsSource 4) shared (codes "ws_trans")
      (codes "m") [] (some 5) (socket_ready ∷ []) (socket_ready ∷ []) 1 2 3 4 (3 ∷ 0xe8 ∷ [])
      (9 ∷ []) busy_server.world busy_server.world
      (record { input = []; output = 2 ∷ 0 ∷ 0 ∷ 0 ∷ 0 ∷ 0 ∷ 0 ∷ 0 ∷ 72 ∷ 105 ∷ [] }) opens_lem
      text_round (omega arith) (omega arith) (omega arith)

forward_socket-text_example :
    forward_socket wire greeted_server
    ≡ done tt (record server {
      world = record { input = []; output = 2 ∷ 0 ∷ 0 ∷ 0 ∷ 0 ∷ 0 ∷ 0 ∷ 0 ∷ 72 ∷ 105 ∷ [] };
    })
forward_socket-text_example =
    forward_socket-text wire 1 2 3 4 greeting [] greeted_server 4 feed empty (omega arith)
      (omega arith) (omega arith) refl refl refl (wire-IsSource 4) refl

-- A text that is not complete, "Hi", and its end, "!".
abbrev told_server : Peer Wire
told_server = record server {
  world = record {
    input = 0x01 ∷ 0x82 ∷ 1 ∷ 2 ∷ 3 ∷ 4 ∷ 73 ∷ 107 ∷ 0x80 ∷ 0x81 ∷ 1 ∷ 2 ∷ 3 ∷ 4 ∷ 32 ∷ [];
    output = [];
  };
}

abbrev half_told : Peer Wire
half_told = left (trans_round wire socket_ready told_server)

half_round : Rounds wire (socket_ready ∷ []) told_server half_told
unfolding reversell get_ws_opcode ws_frame_is_final ws_frame_is_masked get_ws_frame_mask
    get_ws_header_size get_ws_payload_size xor_payload xor_frame unmask_ws_frame ws_fd_rx
    receive_frame ws_rx_frame ws_simple_clear_buffer text_handler run_handler write_buffers
    forward_socket trans_round strncpy copy_payload
half_round = next refl refl here

-- The first part is kept.
half_told_lem : half_told.conn.buffer ≢ none
unfolding reversell get_ws_opcode ws_frame_is_final ws_frame_is_masked get_ws_frame_mask
    get_ws_header_size get_ws_payload_size xor_payload xor_frame unmask_ws_frame ws_fd_rx
    receive_frame ws_rx_frame ws_simple_clear_buffer text_handler run_handler write_buffers
    forward_socket trans_round strncpy copy_payload
half_told_lem e = absurd (cc)

trans_loop-HasChain_example :
    HasChain half_told × Leaves HasChain (trans_loop wire (socket_ready ∷ []) half_told)
trans_loop-HasChain_example =
    trans_loop-HasChain wire (socket_ready ∷ []) (socket_ready ∷ []) told_server half_told tt
      half_round

-- A text of which the first part, "Hi", has come.
abbrev begun : SimpleBuffer
begun = record {
  type = ws_text;
  nbytes = 2;
  nalloc = 2;
  is_complete = 0;
  content = λ i. if i == 0 then 72 else if i == 1 then 105 else 0xaa;
}

abbrev waiting_server : Peer Wire
waiting_server = record server { conn = record server.conn { buffer = some (begun ∷ []) } }

abbrev ended_buffer : SimpleBuffer
ended_buffer = record begun { is_complete = 0x80 }

abbrev idle_server : Peer Wire
idle_server = record server { conn = record server.conn { buffer = some (ended_buffer ∷ []) } }

-- "!", the end of a message.
abbrev ending : WsFrame
ending = record { opcode = 0x80; size = 1; v = λ i. 0x55; payload = some (33 ∷ []) }

ending_size : get_ws_payload_size ending ≡ 1
unfolding get_ws_payload_size
ending_size = refl

continuation_handler-added_example :
    (b : SimpleBuffer) × (continuation_handler wire ending waiting_server
      ≡ done tt
          (record waiting_server { conn = record waiting_server.conn { buffer = some (b ∷ []) } }))
    × (load b.nbytes 0 b.content ≡ 72 ∷ 105 ∷ 33 ∷ [])
    × (b.nbytes ≤ b.nalloc)
    × (b.type ≡ ws_text)
    × (b.is_complete ≡ ws_frame_is_final ending)
continuation_handler-added_example =
    continuation_handler-added wire ending begun [] (33 ∷ []) waiting_server refl ending_size refl
      refl (omega arith)

handlers-out_of_turn_example :
    (text_handler wire ending waiting_server ≡ answered wire 3 waiting_server text_reason)
    × (binary_handler wire ending waiting_server ≡ answered wire 3 waiting_server binary_reason)
    × (continuation_handler wire ending idle_server
        ≡ answered wire 3 idle_server continuation_reason)
handlers-out_of_turn_example =
    handlers-out_of_turn wire ending begun ended_buffer [] 3 waiting_server idle_server
      wire-IsTransport wire-IsStream refl refl refl refl refl refl refl refl

-- A masked frame and one that is not.
abbrev masked_frame : WsFrame
masked_frame = record {
  opcode = 0x81;
  size = 0x82;
  v = λ i. i % 256;
  payload = some (73 ∷ 107 ∷ []);
}

abbrev plain_frame : WsFrame
plain_frame = record { opcode = 0x81; size = 2; v = λ i. 0x55; payload = some greeting }

masked_frame-IsFrame : IsFrame masked_frame
masked_frame-IsFrame = record { opcode = omega arith; size = omega arith; v = λ i. omega arith }

plain_frame-IsFrame : IsFrame plain_frame
plain_frame-IsFrame = record { opcode = omega arith; size = omega arith; v = λ i. omega arith }

plain_frame-unmasked : ws_frame_is_masked plain_frame ≡ false
unfolding ws_frame_is_masked
plain_frame-unmasked = refl

plain_frame_size : get_ws_payload_size plain_frame ≡ 2
unfolding get_ws_payload_size
plain_frame_size = refl

unmask_ws_frame-mask_ws_frame_example :
    (g : WsFrame) × (mask_ws_frame (1 ∷ 2 ∷ 3 ∷ 260 ∷ []) plain_frame ≡ some g)
    × (ws_frame_is_masked g ≡ true)
    × (get_ws_payload_size g ≡ get_ws_payload_size plain_frame)
    × (unmask_ws_frame g ≡ some (record plain_frame { v = g.v }))
unmask_ws_frame-mask_ws_frame_example =
    unmask_ws_frame-mask_ws_frame plain_frame plain_frame-IsFrame plain_frame-unmasked greeting 1 2
      3 260 refl (omega arith) (omega (arith, plain_frame_size))

abbrev sender : Peer (List ℕ)
sender = record { conn = make_ws_fd_server_connection 3 4; world = [] }

abbrev receiver : Peer (List ℕ)
receiver = record { conn = make_ws_fd_client_connecion 5 6; world = [] }

receive_frame-ws_tx_frame_example :
    (u : Peer (List ℕ)) × (f : WsFrame) × (ws_tx_frame pipe ws_text (some greeting) 2 sender
      ≡ done tt u)
    × (receive_frame pipe (record receiver { world = u.world }) ≡ done f receiver)
    × Carries f ws_text greeting
receive_frame-ws_tx_frame_example =
    receive_frame-ws_tx_frame pipe ws_text greeting 3 5 fill sender receiver pipe-IsTransport
      pipe-IsStream (pipe-IsSource 5) (pipe-IsEmptyPipe 3) (omega arith) refl refl refl
      (omega arith)
