-- ===== src/WsConnection/Transmit.antt =====
-- What ws_tx_frame sends.
use Prim.Native.Nat.{◌^◌, bit_or}
use arclaunch.Prelude.{
  ℕ, ◌+◌, ◌≤◌, ◌<◌, ◌≡◌, refl, ◌∙◌, false, Option, none, some, List, [], ◌∷◌, done, ltb, ◌==◌,
  if◌then◌else◌, length, arith,
}
use arclaunch.Prelude.Bytes.{IsByte, set_top, marked_nibble}
use arclaunch.WsFrame.{
  WsFrame, load, store, set_ws_opcode, get_ws_payload_size, get_ws_header_size, make_ws_frame_final,
}
use arclaunch.WsFrame.Sizes.{
  IsFrame, size_code, size-set_ws_payload_size, get_ws_payload_size-set_ws_payload_size,
  get_ws_payload_size-set_ws_payload_size_long,
}
use arclaunch.WsFrame.Keeps.{set_size_rest}
use arclaunch.WsConnection.{
  ws_server, Transport, Peer, exactly, image, copy_payload, tx_header, ws_tx_frame, mask_if_client,
  ws_fd_tx,
}

pub store-below : (at i : ℕ) (bs : List ℕ) (v : ℕ → ℕ) → i < at → store at bs v i ≡ v i
store-below at i [] v h = refl
store-below at i (b ∷ bs) v h =
    store-below (at + 1) i bs (λ j. if j == at then b else v j) (omega arith) ∙ ground arith

-- Memory holds what was stored last.
pub load_stored : (at : ℕ) (bs : List ℕ) (v : ℕ → ℕ) → load (length bs) at (store at bs v) ≡ bs
load_stored at [] v = refl
load_stored at (b ∷ bs) v =
    let here = store-below (at + 1) at bs (λ j. if j == at then b else v j) (omega arith) in
    ground (arith, here, load_stored (at + 1) bs (λ j. if j == at then b else v j))

pub exactly_all : (bs : List ℕ) → exactly (length bs) bs ≡ some bs
exactly_all [] = refl
exactly_all (b ∷ bs) = rw (exactly_all bs)

module _ {W : Type 0} (io : Transport W) where
  pub copy_all : (bs : List ℕ) → copy_payload io (length bs) (length bs) (some bs) ≡ some bs
  unfolding copy_payload
  copy_all bs =
      let fits : ltb (length bs) (length bs) ≡ false = ground arith in
      rw (fits, exactly_all bs, load_stored 0 bs io.heap)

  pub copy_too_many : (n : ℕ) (src : Option (List ℕ)) → 0 < n → copy_payload io 0 n src ≡ none
  unfolding copy_payload
  copy_too_many n src h = ground arith

-- The memory that the code has not written holds bytes.
pub record IsTransport {W : Type 0} (io : Transport W) : Type 0 where
  pub stack : (i : ℕ) → IsByte (io.stack i)
  pub heap : (i : ℕ) → IsByte (io.heap i)

set_opcode_lem :
    (f : WsFrame) (op : ℕ)
    → op < 16
    → f.opcode ≡ bit_or 0x80 op
    → ((set_ws_opcode f op).opcode ≡ 128 + op)
      × ((set_ws_opcode f op).size ≡ f.size)
      × ((set_ws_opcode f op).v ≡ f.v)
unfolding set_ws_opcode make_ws_frame_final
set_opcode_lem f op h e =
    (ground (arith, marked_nibble op h, set_top (128 + op)), ground arith, ground arith)

module _ {W : Type 0} (io : Transport W) (h : IsTransport io) (op : ℕ) (lt : op < 16) where
  abbrev start : WsFrame
  start = record {
    opcode = bit_or 0x80 op;
    size = 0x00;
    v = λ i. if ltb i 2 then 0 else io.stack (8 + i);
    payload = none;
  }

  start-IsFrame : IsFrame (set_ws_opcode start op)
  start-IsFrame =
      let (o, s, v) = set_opcode_lem start op lt refl in
      record {
        opcode = omega (arith, o);
        size = omega (arith, s);
        v = λ i. rw v (ground (arith, h.stack (8 + i)));
      }

  pub tx_header_opcode : (n : ℕ) → (tx_header io op n).opcode ≡ 128 + op
  unfolding tx_header
  tx_header_opcode n =
      (set_size_rest (set_ws_opcode start op) n).0 ∙ (set_opcode_lem start op lt refl).0

  pub tx_header_size : (n : ℕ) → (tx_header io op n).size ≡ size_code n
  unfolding tx_header
  tx_header_size n = ground (
    arith,
    size-set_ws_payload_size (set_ws_opcode start op) n start-IsFrame,
    (set_opcode_lem start op lt refl).1,
  )

  pub tx_payload_size : (n : ℕ) → n ≤ 0xffff → get_ws_payload_size (tx_header io op n) ≡ n
  unfolding tx_header
  tx_payload_size n le =
      get_ws_payload_size-set_ws_payload_size (set_ws_opcode start op) n start-IsFrame le

  pub tx_payload_size_long :
      (n : ℕ) → 0xffff < n → n < 2 ^ 48 → get_ws_payload_size (tx_header io op n) ≡ 0
  unfolding tx_header
  tx_payload_size_long n lo hi =
      get_ws_payload_size-set_ws_payload_size_long (set_ws_opcode start op) n start-IsFrame lo hi

module _ {W : Type 0} (io : Transport W) (s : Peer W) where
  server_unmasked : (f : WsFrame) → s.conn.endpoint ≡ ws_server → mask_if_client io f s ≡ done f s
  unfolding mask_if_client
  server_unmasked f e = rw e

  -- The payload was copied, and the endpoint is a server.
  pub tx_done :
      (op : ℕ) (payload : List ℕ) (fd : ℕ) (f : WsFrame)
      → s.conn.endpoint ≡ ws_server
      → s.conn.tx_data ≡ some fd
      → get_ws_payload_size (tx_header io op (length payload)) ≡ length payload
      → make_ws_frame_final (record (tx_header io op (length payload)) { payload = some payload })
        ≡ f
      → get_ws_payload_size f ≡ length payload
      → f.payload ≡ some payload
      → ws_tx_frame io op (some payload) (length payload) s
        ≡ done tt (record s {
          world =
              io.write fd payload
                (io.write fd (load (get_ws_header_size f) 0 (image io f)) s.world);
        })
  unfolding ws_tx_frame ws_fd_tx mask_if_client
  tx_done op payload fd f server out size final size' same =
      rw (size, copy_all io payload, server, final, out, size', same, exactly_all payload)
