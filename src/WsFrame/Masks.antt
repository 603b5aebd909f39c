-- ===== src/WsFrame/Masks.antt =====
-- Masking a frame and unmasking it.
use Prim.Native.Nat.{◌%◌, bit_and, bit_or, bit_xor}
use arclaunch.Prelude.{
  ℕ, zero, suc, ◌+◌, ◌≤◌, ◌<◌, ◌≡◌, refl, ap, sym, ◌∙◌, true, false, Option, if◌then◌else◌, some,
  List, [], ◌∷◌, map, arith, ◌==◌, length, All,
}
use arclaunch.Prelude.Bytes.{IsByte, low_seven, set_top, xor_twice}
use arclaunch.WsFrame.{
  WsFrame, get_ws_payload_size, ws_frame_is_masked, get_ws_frame_mask, store, xor_payload,
  xor_frame, mask_ws_frame, unmask_ws_frame,
}
use arclaunch.WsFrame.Sizes.{IsFrame, masked_lem, mask_place, put_mask-below, read_size}

store-IsByte :
    (at : ℕ) (bs : List ℕ) (v : ℕ → ℕ)
    → All IsByte bs
    → ((i : ℕ) → IsByte (v i))
    → (i : ℕ) → IsByte (store at bs v i)
store-IsByte at [] v hb hv i = hv i
store-IsByte at (b ∷ bs) v hb hv i =
    store-IsByte (at + 1) bs (λ j. if j == at then b else v j) hb.1 (λ j. ground (arith, hv j)) i

-- XOR with the same mask twice gives the payload back.
xor_payload-xor_payload :
    (mask : ℕ → ℕ) (c n : ℕ) (bs : List ℕ)
    → ((k : ℕ) → IsByte (mask k))
    → n ≤ length bs
    → All IsByte bs
    → (ys : List ℕ) × (xor_payload mask c n bs ≡ some ys) × (xor_payload mask c n ys ≡ some bs)
unfolding xor_payload
xor_payload-xor_payload mask c zero bs hm le hb = (bs, refl, refl)
xor_payload-xor_payload mask c (suc n) [] hm le hb = absurd (omega arith)
xor_payload-xor_payload mask c (suc n) (b ∷ bs) hm le hb =
    let (ys, e, e') = xor_payload-xor_payload mask (c + 1) n bs hm (omega arith) hb.1 in
    (bit_xor b (mask (c % 4)) ∷ ys, rw e, rw (e', xor_twice b (mask (c % 4)) hb.0 (hm (c % 4))))

pub xor_frame_done :
    (at size : ℕ) (f : WsFrame) (bytes ys : List ℕ)
    → f.payload ≡ some bytes
    → xor_payload (λ k. f.v (at + k)) 0 size bytes ≡ some ys
    → xor_frame at size f ≡ some (record f { payload = some ys })
unfolding xor_frame
xor_frame_done at size f bytes ys e masks = rw (e, masks)

mask_done :
    (f g : WsFrame) (at : ℕ) (randoms : List ℕ)
    → ws_frame_is_masked f ≡ false
    → get_ws_frame_mask (record f { size = bit_or f.size 0x80 }) ≡ some at
    → xor_frame at
        (get_ws_payload_size f)
        (record f { size = bit_or f.size 0x80; v = store at (map (λ r. r % 256) randoms) f.v })
      ≡ some g
    → mask_ws_frame randoms f ≡ some g
unfolding mask_ws_frame
mask_done f g at randoms unmasked p e = rw (unmasked, p, e)

pub unmask_done :
    (f g : WsFrame) (at : ℕ)
    → ws_frame_is_masked f ≡ true
    → get_ws_frame_mask f ≡ some at
    → xor_frame at (get_ws_payload_size f) (record f { size = bit_and f.size 0x7f }) ≡ some g
    → unmask_ws_frame f ≡ some g
unfolding unmask_ws_frame
unmask_done f g at masked p e = rw (masked, p, e)

module _ (f : WsFrame) (h : IsFrame f) (unmasked : ws_frame_is_masked f ≡ false) where
  abbrev place : ℕ
  place = if f.size == 0x7f then 8 else if f.size == 0x7e then 2 else 0

  abbrev with_mask : List ℕ → Option (List ℕ) → WsFrame
  with_mask mask payload = record {
    opcode = f.opcode;
    size = bit_or f.size 0x80;
    v = store place mask f.v;
    payload = payload;
  }

  abbrev unmasked_frame : List ℕ → Option (List ℕ) → WsFrame
  unmasked_frame mask payload = record {
    opcode = f.opcode;
    size = f.size;
    v = store place mask f.v;
    payload = payload;
  }

  size_below : f.size < 128
  size_below = ground (arith, masked_lem f h.size)

  marked : bit_or f.size 0x80 ≡ 128 + f.size
  marked = omega (arith, set_top f.size h.size, size_below)

  marked_place : (g : WsFrame) → g.size ≡ bit_or f.size 0x80 → get_ws_frame_mask g ≡ some place
  marked_place g e =
      mask_place g 1 f.size (omega arith) size_below (omega (arith, marked)) ∙ ground arith

  cleared : bit_and (bit_or f.size 0x80) 0x7f ≡ f.size
  cleared = ground (arith, marked, size_below, low_seven (bit_or f.size 0x80))

  marked_masked : (g : WsFrame) → g.size ≡ bit_or f.size 0x80 → ws_frame_is_masked g ≡ true
  marked_masked g e = ground (arith, marked, size_below, masked_lem g)

  marked_size :
      (mask : List ℕ) (payload : Option (List ℕ))
      → get_ws_payload_size (with_mask mask payload) ≡ get_ws_payload_size f
  marked_size mask payload = ground (
    arith,
    size_below,
    marked,
    read_size (with_mask mask payload) 1 f.size,
    read_size f 0 f.size,
    put_mask-below place mask f 0,
    put_mask-below place mask f 1,
  )

  -- Masking a frame and unmasking it gives the frame back, but for the bytes of the mask in the header.
  -- In between it is marked as masked and has the same payload size.
  pub unmask_ws_frame-mask_ws_frame :
      (bytes : List ℕ) (a b c d : ℕ)
      → f.payload ≡ some bytes
      → All IsByte bytes
      → get_ws_payload_size f ≤ length bytes
      → (g : WsFrame) × (mask_ws_frame (a ∷ b ∷ c ∷ d ∷ []) f ≡ some g)
        × (ws_frame_is_masked g ≡ true)
        × (get_ws_payload_size g ≡ get_ws_payload_size f)
        × (unmask_ws_frame g ≡ some (record f { v = g.v }))
  unmask_ws_frame-mask_ws_frame bytes a b c d e hb le =
      let mask = map (λ r. r % 256) (a ∷ b ∷ c ∷ d ∷ []) in
      let byte : (i : ℕ) → IsByte (store place mask f.v i) =
        store-IsByte place mask f.v (omega arith) h.v in
      let (ys, masks, unmasks) =
        xor_payload-xor_payload (λ k. store place mask f.v (place + k)) 0 (get_ws_payload_size f)
          bytes (λ k. byte (place + k)) le hb in
      (
        with_mask mask (some ys),
        mask_done f (with_mask mask (some ys)) place (a ∷ b ∷ c ∷ d ∷ []) unmasked
            (marked_place (record f { size = bit_or f.size 0x80 }) refl)
            (xor_frame_done place (get_ws_payload_size f) (with_mask mask f.payload) bytes ys e
              masks),
        marked_masked (with_mask mask (some ys)) refl,
        marked_size mask (some ys),
        unmask_done (with_mask mask (some ys)) (record f { v = store place mask f.v }) place
            (marked_masked (with_mask mask (some ys)) refl)
            (marked_place (with_mask mask (some ys)) refl)
            (rw (marked_size mask (some ys), cleared)
              (xor_frame_done place (get_ws_payload_size f)
                  (record f { v = store place mask f.v; payload = some ys }) ys bytes refl unmasks
                ∙ ap (λ p. some (unmasked_frame mask p)) (sym e))),
      )
