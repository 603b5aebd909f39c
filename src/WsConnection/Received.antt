-- ===== src/WsConnection/Received.antt =====
-- The frame that the handler is given, for a frame of RFC 6455 that a client has masked.
use Prim.Native.Nat.{◌*◌, ◌/◌, ◌%◌, bit_and}
use mathlib.Core.List.{append_assoc}
use arclaunch.Prelude.{
  ℕ, ◌+◌, ◌≤◌, ◌<◌, ◌≡◌, refl, ap, sym, ◌∙◌, true, false, not, some, List, [], ◌∷◌, ◌++◌, done,
  ◌==◌, if◌then◌else◌, length, length-append, All, arith,
}
use arclaunch.Prelude.Bytes.{IsByte, low_seven, low_four, top_bit}
use arclaunch.WsFrame.{
  WsFrame, store, get_ws_opcode, get_ws_payload_size, get_ws_header_size, ws_frame_is_final,
  ws_frame_is_masked, get_ws_frame_mask, xor_payload, xor_frame, unmask_ws_frame,
}
use arclaunch.WsFrame.Sizes.{masked_lem, mask_place, read_size}
use arclaunch.WsFrame.Masks.{xor_frame_done, unmask_done}
use arclaunch.WsConnection.{Transport, Peer, receive_frame}
use arclaunch.WsConnection.Rfc.{rfc_code, rfc_extension, rfc_mask, client_frame}
use arclaunch.WsConnection.Transmit.{store-below}
use arclaunch.WsConnection.Receive.{
  xor_payload-rfc_mask, length-rfc_mask, rfc_mask-rfc_mask, IsSource, short_frame, full_frame,
  receive_done,
}

pub frame_sizes :
    (f : WsFrame) (t n : ℕ)
    → t ≤ 1
    → n ≤ 0xffff
    → f.size ≡ t * 128 + rfc_code n
    → (125 < n → (f.v 0 ≡ n / 256) × (f.v 1 ≡ n % 256))
    → get_ws_payload_size f ≡ n
frame_sizes f t n ht le e h = ground (arith, e, read_size f t (rfc_code n), h)

pub header_sizes :
    (f : WsFrame) (t n : ℕ)
    → t ≤ 1
    → n ≤ 0xffff
    → f.size ≡ t * 128 + rfc_code n
    → get_ws_header_size f ≡ length (rfc_extension n) + t * 4 + 2
unfolding get_ws_header_size
header_sizes f t n ht le e = ground (arith, e, masked_lem f)

mask_at_extension :
    (f : WsFrame) (n : ℕ)
    → n ≤ 0xffff
    → f.size ≡ 128 + rfc_code n
    → get_ws_frame_mask f ≡ some (length (rfc_extension n))
mask_at_extension f n le e = ground (arith, e, mask_place f 1 (rfc_code n))

pub extension_stored :
    (n : ℕ) (mask : List ℕ) (v : ℕ → ℕ)
    → 125 < n
    → n ≤ 0xffff
    → (store 0 (rfc_extension n ++ mask) v 0 ≡ n / 256)
      × (store 0 (rfc_extension n ++ mask) v 1 ≡ n % 256)
extension_stored n mask v lo hi =
    let two : rfc_extension n ≡ n / 256 ∷ n % 256 ∷ [] = ground arith in
    rw two (store-below 2 0 mask _ (omega arith), store-below 2 1 mask _ (omega arith))

mask_stored :
    (n a b c d k : ℕ) (v : ℕ → ℕ)
    → n ≤ 0xffff
    → store 0 (rfc_extension n ++ a ∷ b ∷ c ∷ d ∷ []) v (length (rfc_extension n) + k) ≡ (
        if k == 0
        then a
        else if k == 1
        then b
        else if k == 2
        then c
        else if k == 3
        then d
        else v (length (rfc_extension n) + k))
mask_stored n a b c d k v le = ground arith

-- A frame is handed on as it was sent.
pub record Carries (f : WsFrame) (op : ℕ) (bytes : List ℕ) : Type 0 where
  pub opcode : get_ws_opcode f ≡ op
  pub final : not (ws_frame_is_final f == 0) ≡ true
  pub unmasked : ws_frame_is_masked f ≡ false
  pub size : get_ws_payload_size f ≡ length bytes
  pub payload : f.payload ≡ some bytes

pub final_opcode :
    (f : WsFrame) (op : ℕ)
    → op < 16
    → f.opcode ≡ 128 + op
    → (get_ws_opcode f ≡ op) × (not (ws_frame_is_final f == 0) ≡ true)
unfolding get_ws_opcode ws_frame_is_final
final_opcode f op lt e = ground (arith, low_four f.opcode, top_bit f.opcode, e)

regroup :
    (ext mask masked others : List ℕ)
    → (ext ++ (mask ++ masked)) ++ others ≡ (ext ++ mask) ++ (masked ++ others)
regroup ext mask masked others =
    append_assoc ext (mask ++ masked) others
    ∙ ap (λ t. ext ++ t) (append_assoc mask masked others)
    ∙ sym (append_assoc ext mask (masked ++ others))

module _ {W : Type 0} (io : Transport W) (op : ℕ) (lt : op < 16) (payload : List ℕ) where
  abbrev header_size : ℕ
  header_size = length (rfc_extension (length payload))

  handed_on : (header : List ℕ) → WsFrame
  handed_on header = full_frame io (128 + op) (rfc_code (length payload)) header payload

  handed_on-Carries :
      (header : List ℕ)
      → length payload ≤ 0xffff
      → Carries (handed_on (rfc_extension (length payload) ++ header)) op payload
  unfolding handed_on
  handed_on-Carries header le =
      let f = handed_on (rfc_extension (length payload) ++ header) in
      let n = length payload in
      record {
        opcode = (final_opcode f op lt refl).0;
        final = (final_opcode f op lt refl).1;
        unmasked = ground (arith, masked_lem f);
        size =
            frame_sizes f 0 n (omega arith) le (omega arith)
              λ lo. extension_stored n header (short_frame io 0 0).v lo le;
        payload = refl;
      }

  module _ (a b c d : ℕ) (mask : All IsByte (a ∷ b ∷ c ∷ d ∷ [])) (bytes : All IsByte payload)
      (le : length payload ≤ 0xffff) where
    abbrev mask_bytes : List ℕ
    mask_bytes = a ∷ b ∷ c ∷ d ∷ []

    abbrev received : WsFrame
    received =
        full_frame io (128 + op) (128 + rfc_code (length payload))
          (rfc_extension (length payload) ++ mask_bytes) (rfc_mask a b c d payload)

    received_size : get_ws_payload_size received ≡ length payload
    received_size =
        frame_sizes received 1 (length payload) (omega arith) le (omega arith)
          λ lo. extension_stored (length payload) mask_bytes (short_frame io 0 0).v lo le

    payload_back :
        xor_payload
          (λ k. received.v (header_size + k))
          0
          (length payload)
          (rfc_mask a b c d payload)
        ≡ some payload
    payload_back =
        let v = (short_frame io 0 0).v in
        let n = length payload in
        ap (λ m. xor_payload (λ k. received.v (header_size + k)) 0 m (rfc_mask a b c d payload))
          (sym (length-rfc_mask a b c d payload))
        ∙ xor_payload-rfc_mask (λ k. received.v (header_size + k)) 0 (rfc_mask a b c d payload)
        ∙ rw (
          mask_stored n a b c d 0 v le,
          mask_stored n a b c d 1 v le,
          mask_stored n a b c d 2 v le,
          mask_stored n a b c d 3 v le,
          rfc_mask-rfc_mask a b c d payload mask.0 mask.1.0 mask.1.1.0 mask.1.1.1.0 bytes,
        )

    unmask_lem :
        unmask_ws_frame received ≡ some (handed_on (rfc_extension (length payload) ++ mask_bytes))
    unfolding handed_on
    unmask_lem =
        let n = length payload in
        let code : bit_and received.size 0x7f ≡ rfc_code n =
          ground (arith, low_seven received.size) in
        unmask_done received _ header_size (ground (arith, masked_lem received))
          (mask_at_extension received n le refl)
          (ap (λ m. xor_frame header_size m (record received { size = bit_and received.size 0x7f }))
              received_size
            ∙ xor_frame_done header_size n (record received { size = bit_and received.size 0x7f })
                (rfc_mask a b c d payload) payload refl payload_back
            ∙ ap (λ size. some (record received { size = size; payload = some payload })) code)

    received_lem :
        (s : Peer W) (fd : ℕ) (feed : List ℕ → W → W) (others : List ℕ) (w : W)
        → s.conn.rx_data ≡ some fd
        → IsSource io fd feed
        → s.world ≡ feed (client_frame a b c d op payload ++ others) w
        → receive_frame io s
          ≡ done
              (handed_on (rfc_extension (length payload) ++ mask_bytes))
              (record s { world = feed others w })
    unfolding get_ws_payload_size
    received_lem s fd feed others w rx source e =
        let n = length payload in
        let masked = rfc_mask a b c d payload in
        let tail = (rfc_extension n ++ a ∷ b ∷ c ∷ d ∷ masked) ++ others in
        let split : tail ≡ (rfc_extension n ++ mask_bytes) ++ (masked ++ others) =
          regroup (rfc_extension n) mask_bytes masked others in
        let count : length (rfc_extension n ++ mask_bytes) ≡ header_size + 4 =
          length-append (rfc_extension n) mask_bytes in
        receive_done io s fd (128 + op) (128 + rfc_code n) (header_size + 4) n
          (rfc_extension n ++ mask_bytes) masked _ (feed tail w) (feed (masked ++ others) w)
          (feed others w) rx
          (ap (λ v. io.read fd 2 v) e ∙ source.reads ((128 + op) ∷ (128 + rfc_code n) ∷ []) tail w)
          (header_sizes (short_frame io (128 + op) (128 + rfc_code n)) 1 n (omega arith) le
            (omega arith))
          (ap (λ k. io.read fd k (feed tail w)) (sym count)
            ∙ ap (λ t. io.read fd (length (rfc_extension n ++ mask_bytes)) (feed t w)) split
            ∙ source.reads (rfc_extension n ++ mask_bytes) (masked ++ others) w)
          received_size
          (ap (λ k. io.read fd k (feed (masked ++ others) w))
              (sym (length-rfc_mask a b c d payload))
            ∙ source.reads masked others w)
          (length-rfc_mask a b c d payload) unmask_lem

-- A masked frame of RFC 6455 with the final bit, of at most 0xffff bytes, is received as it was sent,
-- and nothing after it is read: the frame that the handler is given has the opcode, the final bit
-- and the size, is no longer masked, and its payload is the one before the mask.
pub receive_frame-client_frame :
    {W : Type 0} (io : Transport W) (op a b c d : ℕ) (payload : List ℕ) (s : Peer W) (fd : ℕ)
    (feed : List ℕ → W → W) (others : List ℕ) (w : W)
    → op < 16
    → All IsByte (a ∷ b ∷ c ∷ d ∷ [])
    → All IsByte payload
    → length payload ≤ 0xffff
    → s.conn.rx_data ≡ some fd
    → IsSource io fd feed
    → s.world ≡ feed (client_frame a b c d op payload ++ others) w
    → (f : WsFrame) × (receive_frame io s ≡ done f (record s { world = feed others w }))
      × Carries f op payload
receive_frame-client_frame io op a b c d payload s fd feed others w lt mask bytes le rx source e = (
  handed_on io op lt payload (rfc_extension (length payload) ++ a ∷ b ∷ c ∷ d ∷ []),
  received_lem io op lt payload a b c d mask bytes le s fd feed others w rx source e,
  handed_on-Carries io op lt payload (a ∷ b ∷ c ∷ d ∷ []) le,
)
