-- ===== src/WsFrame/Keeps.antt =====
-- The mask, the opcode and the payload when the size of a frame is rewritten.
use Prim.Native.Nat.{◌/◌}
use arclaunch.Prelude.{
  Bool-cases, inl, inr, ℕ, ◌≡◌, refl, ap, ◌∙◌, true, false, Option, if◌then◌else◌, none, some, List,
  arith, ◌==◌,
}
use arclaunch.WsFrame.{
  WsFrame, set_ws_payload_size, write_size, ws_frame_is_masked, get_ws_frame_mask, mask_at,
  put_mask, load, store,
}
use arclaunch.WsFrame.Sizes.{
  IsFrame, masked_lem, mask_place, set_masked, place-width, width, size_code,
  size-set_ws_payload_size,
}

load-store : (at k : ℕ) (v w : ℕ → ℕ) → load 4 at (store at (load 4 k v) w) ≡ load 4 k v
load-store at k v w = ground arith

opcode-put_mask :
    (o : Option ℕ) (mask : List ℕ) (f : WsFrame) → (put_mask o mask f).opcode ≡ f.opcode
opcode-put_mask none mask f = refl
opcode-put_mask (some at) mask f = refl

payload-put_mask :
    (o : Option ℕ) (mask : List ℕ) (f : WsFrame) → (put_mask o mask f).payload ≡ f.payload
payload-put_mask none mask f = refl
payload-put_mask (some at) mask f = refl

write_size_rest :
    (f : WsFrame) (size : ℕ)
    → ((write_size f size).opcode ≡ f.opcode) × ((write_size f size).payload ≡ f.payload)
unfolding write_size
write_size_rest f size = ground arith

pub set_size_rest :
    (f : WsFrame) (size : ℕ)
    → ((set_ws_payload_size f size).opcode ≡ f.opcode)
      × ((set_ws_payload_size f size).payload ≡ f.payload)
unfolding set_ws_payload_size
set_size_rest f size = ground (
  arith,
  write_size_rest f size,
  opcode-put_mask (get_ws_frame_mask (write_size f size)) (mask_at (get_ws_frame_mask f) f)
      (write_size f size),
  payload-put_mask (get_ws_frame_mask (write_size f size)) (mask_at (get_ws_frame_mask f) f)
      (write_size f size),
)

set_size_masked :
    (f : WsFrame) (size : ℕ)
    → IsFrame f
    → ws_frame_is_masked (set_ws_payload_size f size) ≡ ws_frame_is_masked f
set_size_masked f size h = ground (
  arith,
  h.size,
  size-set_ws_payload_size f size h,
  masked_lem f h.size,
  masked_lem (set_ws_payload_size f size),
)

mask_none : (f : WsFrame) → ws_frame_is_masked f ≡ false → get_ws_frame_mask f ≡ none
unfolding get_ws_frame_mask
mask_none f e = ground (arith, e)

abbrev masked_place : WsFrame → ℕ
masked_place f = if f.size == 0xff then 8 else if f.size == 0xfe then 2 else 0

mask_some :
    (f : WsFrame) → ws_frame_is_masked f ≡ true → get_ws_frame_mask f ≡ some (masked_place f)
unfolding get_ws_frame_mask
mask_some f e = ground (arith, e)

set_size_place :
    (f : WsFrame) (size : ℕ)
    → IsFrame f
    → ws_frame_is_masked f ≡ true
    → get_ws_frame_mask (set_ws_payload_size f size) ≡ some (width size)
set_size_place f size h masked = ground (
  arith,
  h.size,
  masked_lem f h.size,
  size-set_ws_payload_size f size h,
  mask_place (set_ws_payload_size f size) (f.size / 128) (size_code size),
)

set_size_v :
    (f : WsFrame) (size : ℕ)
    → IsFrame f
    → ws_frame_is_masked f ≡ true
    → (set_ws_payload_size f size).v
      ≡ store (width size) (load 4 (masked_place f) f.v) (write_size f size).v
set_size_v f size h masked =
    ap (λ g. g.v) (set_masked f size masked) ∙ rw (place-width f size h masked, mask_some f masked)

set_size_mask :
    (f : WsFrame) (size : ℕ)
    → IsFrame f
    → mask_at (get_ws_frame_mask (set_ws_payload_size f size)) (set_ws_payload_size f size)
      ≡ mask_at (get_ws_frame_mask f) f
set_size_mask f size h = elim (Bool-cases (ws_frame_is_masked f)) [
  | inl masked ↦
      rw (set_size_place f size h masked, set_size_v f size h masked, mask_some f masked)
        (load-store (width size) (masked_place f) f.v (write_size f size).v)
  | inr unmasked ↦ rw (
    mask_none f unmasked,
    mask_none (set_ws_payload_size f size) (set_size_masked f size h ∙ unmasked),
  )
]

-- Rewriting the size of a frame keeps its mask bit, its mask, its opcode and its payload, although
-- the mask stands at a place that depends on the size.
pub set_ws_payload_size-mask :
    (f : WsFrame) (size : ℕ)
    → IsFrame f
    → (ws_frame_is_masked (set_ws_payload_size f size) ≡ ws_frame_is_masked f)
      × (mask_at (get_ws_frame_mask (set_ws_payload_size f size)) (set_ws_payload_size f size)
          ≡ mask_at (get_ws_frame_mask f) f)
      × ((set_ws_payload_size f size).opcode ≡ f.opcode)
      × ((set_ws_payload_size f size).payload ≡ f.payload)
set_ws_payload_size-mask f size h = (
  set_size_masked f size h,
  set_size_mask f size h,
  (set_size_rest f size).0,
  (set_size_rest f size).1,
)
