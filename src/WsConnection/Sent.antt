-- ===== src/WsConnection/Sent.antt =====
-- The frames that ws_tx_frame sends, by the size of the payload.
use Prim.Native.Nat.{◌^◌, bit_or}
use arclaunch.Prelude.{
  Bool-cases, inl, inr, ℕ, ◌+◌, ◌≤◌, ◌<◌, ◌≡◌, refl, ap, ◌∙◌, true, false, Option, some, List, [],
  ◌∷◌, ◌++◌, done, undefined, ltb, if◌then◌else◌, length, arith,
}
use arclaunch.Prelude.Bytes.{set_top}
use arclaunch.WsFrame.{WsFrame, load, get_ws_payload_size, get_ws_header_size, make_ws_frame_final}
use arclaunch.WsFrame.Sizes.{masked_lem, size_code}
use arclaunch.WsConnection.{ws_server, Transport, Peer, image, tx_header, ws_tx_frame}
use arclaunch.WsConnection.Rfc.{rfc_header, server_frame}
use arclaunch.WsConnection.Transmit.{
  copy_too_many, IsTransport, tx_header_opcode, tx_header_size, tx_payload_size,
  tx_payload_size_long, tx_done,
}

final_fields :
    (g : WsFrame) (payload : Option (List ℕ))
    → let f = make_ws_frame_final (record g { payload = payload }) in
      (get_ws_payload_size f ≡ get_ws_payload_size g)
      × (f.opcode ≡ bit_or g.opcode 0x80)
      × (f.size ≡ g.size)
      × (f.payload ≡ payload)
unfolding make_ws_frame_final get_ws_payload_size
final_fields g payload = (refl, refl, refl, refl)

header_two : (f : WsFrame) → f.size < 126 → get_ws_header_size f ≡ 2
unfolding get_ws_header_size
header_two f h = ground (arith, h, masked_lem f)

header_four : (f : WsFrame) → f.size ≡ 126 → get_ws_header_size f ≡ 4
unfolding get_ws_header_size
header_four f e = ground (arith, e)

module _ {W : Type 0} (io : Transport W) (h : IsTransport io) (op : ℕ) (lt : op < 16) where
  -- The header that a server sends, for a payload of at most 0xffff bytes.
  abbrev sent_header : ℕ → List ℕ
  sent_header n =
      if ltb n 126 then rfc_header op n else (128 + op) ∷ 126 ∷ io.stack 2 ∷ io.stack 3 ∷ []

  sent :
      (n : ℕ) (f : WsFrame)
      → n ≤ 0xffff
      → f.opcode ≡ 128 + op
      → f.size ≡ size_code n
      → load (get_ws_header_size f) 0 (image io f) ≡ sent_header n
  sent n f le o e = elim (Bool-cases (ltb n 126)) [
    | inl short ↦
        let two = header_two f (ground (arith, e, short)) in rw two (ground (arith, o, e, short))
    | inr long ↦
        let four = header_four f (ground (arith, e, long)) in rw four (ground (arith, o, e, long))
  ]

  pub tx_server :
      (payload : List ℕ) (fd : ℕ) (s : Peer W)
      → s.conn.endpoint ≡ ws_server
      → s.conn.tx_data ≡ some fd
      → length payload ≤ 0xffff
      → ws_tx_frame io op (some payload) (length payload) s
        ≡ done tt (record s {
          world = io.write fd payload (io.write fd (sent_header (length payload)) s.world);
        })
  tx_server payload fd s server out le =
      let n = length payload in
      let g = tx_header io op n in
      let (size, opcode, code, same) = final_fields g (some payload) in
      tx_done io s op payload fd _ server out (tx_payload_size io h op lt n le) refl
        (size ∙ tx_payload_size io h op lt n le) same
      ∙ ap (λ bytes. done tt (record s { world = io.write fd payload (io.write fd bytes s.world) }))
          (sent n _ le (opcode ∙ ground (arith, tx_header_opcode io h op lt n, set_top (128 + op)))
            (code ∙ tx_header_size io h op lt n))

-- What is written to a descriptor one after the other is one stream.
pub record IsStream {W : Type 0} (io : Transport W) : Type 0 where
  pub joins :
      (fd : ℕ) (first then_bytes : List ℕ) (w : W)
      → io.write fd then_bytes (io.write fd first w) ≡ io.write fd (first ++ then_bytes) w

-- On a stream, a server sends a payload of at most 125 bytes as the frame of RFC 6455 with the final
-- bit and no mask.
pub ws_tx_frame-server_frame :
    {W : Type 0} (io : Transport W) (op : ℕ) (payload : List ℕ) (fd : ℕ) (s : Peer W)
    → IsTransport io
    → IsStream io
    → op < 16
    → s.conn.endpoint ≡ ws_server
    → s.conn.tx_data ≡ some fd
    → length payload ≤ 125
    → ws_tx_frame io op (some payload) (length payload) s
      ≡ done tt (record s { world = io.write fd (server_frame op payload) s.world })
ws_tx_frame-server_frame io op payload fd s h stream lt server out le =
    let short : ltb (length payload) 126 ≡ true = ground arith in
    tx_server io h op lt payload fd s server out (omega arith)
    ∙ rw short (
        ap (λ w. done tt (record s { world = w }))
          (stream.joins fd ((128 + op) ∷ length payload ∷ []) payload s.world))

-- For a payload of 126 to 0xffff bytes, a server sends the code 126 and then two bytes of padding of
-- the struct, not the length that RFC 6455 wants there.
pub ws_tx_frame-padding :
    {W : Type 0} (io : Transport W) (op : ℕ) (payload : List ℕ) (fd : ℕ) (s : Peer W)
    → IsTransport io
    → op < 16
    → s.conn.endpoint ≡ ws_server
    → s.conn.tx_data ≡ some fd
    → 125 < length payload
    → length payload ≤ 0xffff
    → ws_tx_frame io op (some payload) (length payload) s
      ≡ done tt (record s {
        world =
            io.write fd payload
              (io.write fd ((128 + op) ∷ 126 ∷ io.stack 2 ∷ io.stack 3 ∷ []) s.world);
      })
ws_tx_frame-padding io op payload fd s h lt server out lo hi =
    let long : ltb (length payload) 126 ≡ false = ground arith in
    tx_server io h op lt payload fd s server out hi ∙ rw long

-- A payload of more than 0xffff bytes, and of less than 2^48, is copied past the end of the memory
-- that is allocated for it, whatever the endpoint.
pub ws_tx_frame-undefined :
    {W : Type 0} (io : Transport W) (op n : ℕ) (src : Option (List ℕ)) (s : Peer W)
    → IsTransport io
    → op < 16
    → 0xffff < n
    → n < 2 ^ 48
    → ws_tx_frame io op src n s ≡ undefined
unfolding ws_tx_frame
ws_tx_frame-undefined io op n src s h lt lo hi =
    rw (tx_payload_size_long io h op lt n lo hi, copy_too_many io n src (omega arith))
