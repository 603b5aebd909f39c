-- ===== src/WsConnection.antt =====
-- examples/ws: connections (ws_encode_decode.h), ws_tx_frame, ws_rx_frame, and the functions of
-- src/ws_fd. The frame handlers are in WsHandlers.antt. The transport is not part of the program:
-- it is a record of read, write and random, with what fresh memory holds. struct ws_frame has the
-- layout of x86-64, six bytes of padding after the first two fields.
pub mod Rfc
pub mod Leaves
pub mod Loopback
pub mod Receive
pub mod Received
pub mod Sent
pub mod Transmit
use Prim.Native.Nat.{bit_or}
use arclaunch.Prelude.{
  ℕ, zero, suc, ◌+◌, ◌-◌, Bool, true, false, Option, none, some, List, [], ◌∷◌, Exec, Outcome, done,
  undefined, ◌>>=◌, ◌>>◌, pure, ltb, ◌==◌, if◌then◌else◌, get_elem?, length, map,
}
use arclaunch.WsFrame.{
  WsFrame, load, store, set_ws_opcode, set_ws_payload_size, get_ws_payload_size, get_ws_header_size,
  get_ws_opcode, make_ws_frame_final, mask_ws_frame, unmask_ws_frame,
}

pub data Endpoint : Type 0 where
  ws_server ws_client : Endpoint

-- The functions that the tables of handlers name.
pub data Handler : Type 0 where
  ws_simple_continuation_handler ws_simple_text_handler ws_simple_binary_handler : Handler
  ws_simple_close_handler ws_simple_ping_handler ws_simple_pong_handler : Handler

-- struct ws_simple_buffer; `content` is the memory behind `data`, and `prev` the next of a list.
pub record SimpleBuffer : Type 0 where
  pub type : ℕ
  pub nbytes : ℕ
  pub nalloc : ℕ
  pub is_complete : ℕ
  pub content : ℕ → ℕ

-- A file descriptor is what `tx_data` and `rx_data` point to; `none` is a null pointer. `buffer` is
-- `none` if the pointer is not one to a ws_simple_buffer, and the empty list if it is null.
pub record Connection : Type 0 where
  pub endpoint : Endpoint
  pub received_close : Bool
  pub transmitted_close : Bool
  pub tx_data : Option ℕ
  pub rx_data : Option ℕ
  pub buffer : Option (List SimpleBuffer)
  pub frame_handlers : List (Option Handler)

pub record Transport (W : Type 0) : Type 0 where
  -- read(fd, buffer, n): the bytes that arrive in the buffer
  pub read : ℕ → ℕ → W → List ℕ × W
  -- write(fd, buffer, n), with the n bytes
  pub write : ℕ → List ℕ → W → W
  pub random : W → ℕ × W
  -- what uninitialised variables, and memory from malloc, hold at an offset
  pub stack : ℕ → ℕ
  pub heap : ℕ → ℕ

pub record Peer (W : Type 0) : Type 0 where
  pub conn : Connection
  pub world : W

abbrev pub simple_handlers : List (Option Handler)
simple_handlers =
    some ws_simple_continuation_handler
    ∷ some ws_simple_text_handler
    ∷ some ws_simple_binary_handler
    ∷ none
    ∷ none
    ∷ none
    ∷ none
    ∷ none
    ∷ some ws_simple_close_handler
    ∷ some ws_simple_ping_handler
    ∷ some ws_simple_pong_handler
    ∷ none
    ∷ none
    ∷ none
    ∷ none
    ∷ none
    ∷ []

-- The initialisers are by position: tx_data, rx_data, buffer.
abbrev pub make_ws_fd_server_connection : ℕ → ℕ → Connection
make_ws_fd_server_connection in_fd out_fd = record {
  endpoint = ws_server;
  received_close = false;
  transmitted_close = false;
  tx_data = some in_fd;
  rx_data = some out_fd;
  buffer = some [];
  frame_handlers = simple_handlers;
}

abbrev pub make_ws_fd_client_connecion : ℕ → ℕ → Connection
make_ws_fd_client_connecion in_fd out_fd = record {
  endpoint = ws_client;
  received_close = false;
  transmitted_close = false;
  tx_data = none;
  rx_data = some in_fd;
  buffer = none;
  frame_handlers = simple_handlers;
}

-- `n` bytes from a pointer; `none` if that many are not there.
abbrev pub exactly : ℕ → List ℕ → Option (List ℕ)
exactly zero bytes = some []
exactly (suc n) [] = none
exactly (suc n) (b ∷ bytes) = elim (exactly n bytes) [ none ↦ none | some bs ↦ some (b ∷ bs) ]

abbrev pub bytes_at : Option (List ℕ) → ℕ → Option (List ℕ)
bytes_at none n = if n == 0 then some [] else none
bytes_at (some bytes) n = exactly n bytes

module _ {W : Type 0} (io : Transport W) where
  unfoldable pub ws_fd_rx : ℕ → Exec (Peer W) (List ℕ)
  ws_fd_rx nbytes s = elim s.conn.rx_data [
    | none ↦ undefined
    | some fd ↦ let (bytes, w) = io.read fd nbytes s.world in done bytes (record s { world = w })
  ]

  unfoldable pub ws_fd_tx : List ℕ → Exec (Peer W) (Unit {0})
  ws_fd_tx bytes s = elim s.conn.tx_data [
    | none ↦ undefined
    | some fd ↦ done tt (record s { world = io.write fd bytes s.world })
  ]

  abbrev pub random : Exec (Peer W) ℕ
  random s = let (r, w) = io.random s.world in done r (record s { world = w })

  abbrev pub defined : {A : Type 0} → Option A → Exec (Peer W) A
  defined o s = elim o [ none ↦ undefined | some a ↦ done a s ]

  -- The memory of a struct ws_frame, with its padding.
  abbrev pub image : WsFrame → ℕ → ℕ
  image f i =
      if i == 0
      then f.opcode
      else if i == 1
      then f.size
      else if ltb i 8
      then io.stack i
      else f.v (i - 8)

  -- malloc(size) and memcpy(payload, src, numbytes); more bytes than allocated are undefined.
  unfoldable pub copy_payload : ℕ → ℕ → Option (List ℕ) → Option (List ℕ)
  copy_payload size numbytes src =
      if ltb size numbytes then none else elim (bytes_at src numbytes) [
        | none ↦ none
        | some bytes ↦ some (load size 0 (store 0 bytes io.heap))
      ]

  unfoldable pub mask_if_client : WsFrame → Exec (Peer W) WsFrame
  mask_if_client f s = elim s.conn.endpoint [
    | ws_server ↦ done f s
    | ws_client ↦
        (do
          a ← random
          b ← random
          c ← random
          d ← random
          defined (mask_ws_frame (a ∷ b ∷ c ∷ d ∷ []) f))
          s
  ]

  -- The header that ws_tx_frame makes.
  unfoldable pub tx_header : ℕ → ℕ → WsFrame
  tx_header opcode numbytes =
      set_ws_payload_size
        (set_ws_opcode
          (record {
            opcode = bit_or 0x80 opcode;
            size = 0x00;
            v = λ i. if ltb i 2 then 0 else io.stack (8 + i);
            payload = none;
          })
          opcode)
        numbytes

  unfoldable pub ws_tx_frame : ℕ → Option (List ℕ) → ℕ → Exec (Peer W) (Unit {0})
  unfolding mask_if_client
  ws_tx_frame opcode src numbytes = do
    let pack = tx_header opcode numbytes
    payload ← defined (copy_payload (get_ws_payload_size pack) numbytes src)
    masked ← mask_if_client (record pack { payload = some payload })
    let final = make_ws_frame_final masked
    ws_fd_tx (load (get_ws_header_size final) 0 (image final))
    bytes ← defined (bytes_at final.payload (get_ws_payload_size final))
    ws_fd_tx bytes

  -- The part of ws_rx_frame before the handler: the frame that it passes on.
  unfoldable pub receive_frame : Exec (Peer W) WsFrame
  receive_frame = do
    first ← ws_fd_rx 2
    let start = store 0 first io.stack
    let short : WsFrame = record {
      opcode = start 0;
      size = start 1;
      v = λ i. io.stack (8 + i);
      payload = none;
    }
    rest ← ws_fd_rx (get_ws_header_size short - 2)
    let pack : WsFrame = record short { v = store 0 rest short.v }
    bytes ← ws_fd_rx (get_ws_payload_size pack)
    let full : WsFrame = record pack {
      payload = some (load (get_ws_payload_size pack) 0 (store 0 bytes io.heap));
    }
    defined (unmask_ws_frame full)

  module _ (run : Handler → WsFrame → Exec (Peer W) (Unit {0})) where
    -- A null handler, and one past the table, is undefined.
    unfoldable pub ws_rx_frame : Exec (Peer W) (Unit {0})
    ws_rx_frame = do
      pack ← receive_frame
      λ s. elim (get_elem? s.conn.frame_handlers (get_ws_opcode pack)) [
        | some (some h) ↦ run h pack s
        | _ ↦ undefined
      ]
