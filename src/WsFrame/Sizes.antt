-- ===== src/WsFrame/Sizes.antt =====
-- The payload size in the header of a frame, and what rewriting it keeps.
use Prim.Native.Nat.{◌*◌, ◌/◌, ◌%◌, ◌^◌}
use arclaunch.Prelude.{
  Bool-cases, inl, inr, ℕ, ◌+◌, ◌≤◌, ◌<◌, ◌≡◌, refl, ap, ◌∙◌, true, false, Option, if◌then◌else◌,
  none, some, List, [], ◌∷◌, arith, ltb, ◌==◌,
}
use mathlib.Core.List.{reverse}
use arclaunch.Prelude.Bytes.{IsByte, le_bytes, low_seven, top_bit, join_top}
use arclaunch.WsFrame.{
  WsFrame, reversell, swap_short, get_ws_payload_size, set_ws_payload_size, write_size,
  ws_frame_is_masked, get_ws_frame_mask, mask_at, put_mask, load, m_size, l_size,
}
use arclaunch.WsFrame.Reverse.{reversed_bytes}

pub record IsFrame (f : WsFrame) : Type 0 where
  pub opcode : IsByte f.opcode
  pub size : IsByte f.size
  pub v : (i : ℕ) → IsByte (f.v i)

pub masked_lem : (f : WsFrame) → IsByte f.size → ws_frame_is_masked f ≡ ltb 127 f.size
unfolding ws_frame_is_masked
masked_lem f h = ground (arith, top_bit f.size h)

reversell_zero : reversell 0 ≡ 0
unfolding reversell
reversell_zero = refl

put_mask-size : (o : Option ℕ) (mask : List ℕ) (f : WsFrame) → (put_mask o mask f).size ≡ f.size
put_mask-size none mask f = refl
put_mask-size (some at) mask f = refl

pub set_masked :
    (f : WsFrame) (size : ℕ)
    → ws_frame_is_masked f ≡ true
    → set_ws_payload_size f size
      ≡ put_mask
          (get_ws_frame_mask (write_size f size))
          (mask_at (get_ws_frame_mask f) f)
          (write_size f size)
unfolding set_ws_payload_size
set_masked f size e = rw e

pub set_unmasked :
    (f : WsFrame) (size : ℕ)
    → ws_frame_is_masked f ≡ false
    → set_ws_payload_size f size ≡ write_size f size
unfolding set_ws_payload_size
set_unmasked f size e = rw e

-- The code of a size in the second byte of the header.
abbrev pub size_code : ℕ → ℕ
size_code size = if ltb 0xffff size then 0x7f else if ltb 0x7d size then 0x7e else size

pub size-write_size :
    (f : WsFrame) (size : ℕ)
    → IsFrame f
    → (write_size f size).size ≡ f.size / 128 * 128 + size_code size
unfolding write_size
size-write_size f size h =
    ground
      (arith, join_top f.size 0x7f h.size, join_top f.size 0x7e h.size, join_top f.size size h.size)

pub size-set_ws_payload_size :
    (f : WsFrame) (size : ℕ)
    → IsFrame f
    → (set_ws_payload_size f size).size ≡ f.size / 128 * 128 + size_code size
unfolding set_ws_payload_size
size-set_ws_payload_size f size h = ground (
  arith,
  size-write_size f size h,
  put_mask-size (get_ws_frame_mask (write_size f size)) (mask_at (get_ws_frame_mask f) f)
      (write_size f size),
)

abbrev pub place_of : ℕ → ℕ → Option ℕ
place_of t code =
    if t == 0
    then none
    else if code == 0x7f
    then some 8
    else if code == 0x7e
    then some 2
    else some 0

pub mask_place :
    (g : WsFrame) (t code : ℕ)
    → t ≤ 1
    → code < 128
    → g.size ≡ t * 128 + code
    → get_ws_frame_mask g ≡ place_of t code
unfolding get_ws_frame_mask ws_frame_is_masked
mask_place g t code ht hc e = ground (arith, top_bit g.size)

place-write_size :
    (f : WsFrame) (size : ℕ)
    → IsFrame f
    → ws_frame_is_masked f ≡ true
    → get_ws_frame_mask (write_size f size) ≡ place_of 1 (size_code size)
place-write_size f size h masked = ground (
  arith,
  masked_lem f h.size,
  h.size,
  size-write_size f size h,
  mask_place (write_size f size) (f.size / 128) (size_code size),
)

pub put_mask-below :
    (at : ℕ) (mask : List ℕ) (f : WsFrame) (i : ℕ)
    → i < at
    → (put_mask (some at) mask f).v i ≡ f.v i
put_mask-below at [] f i h = refl
put_mask-below at (b ∷ mask) f i h =
    put_mask-below (at + 1) mask (record f { v = λ j. if j == at then b else f.v j }) i
      (omega arith)
    ∙ ground arith

-- The bytes that an extended size takes.
abbrev pub width : ℕ → ℕ
width size = if ltb 0xffff size then 8 else if ltb 0x7d size then 2 else 0

pub place-width :
    (f : WsFrame) (size : ℕ)
    → IsFrame f
    → ws_frame_is_masked f ≡ true
    → get_ws_frame_mask (write_size f size) ≡ some (width size)
place-width f size h masked = place-write_size f size h masked ∙ ground arith

pub v-set_ws_payload_size :
    (f : WsFrame) (size i : ℕ)
    → IsFrame f
    → i < width size
    → (set_ws_payload_size f size).v i ≡ (write_size f size).v i
v-set_ws_payload_size f size i h lt = elim (Bool-cases (ws_frame_is_masked f)) [
  | inl masked ↦
      ap (λ g. g.v i) (set_masked f size masked)
      ∙ rw (place-width f size h masked)
          (put_mask-below (width size) (mask_at (get_ws_frame_mask f) f) (write_size f size) i lt)
  | inr unmasked ↦ ap (λ g. g.v i) (set_unmasked f size unmasked)
]

pub written_short :
    (f : WsFrame) (size : ℕ)
    → IsFrame f
    → 0x7d < size
    → size ≤ 0xffff
    → load 2 0 (set_ws_payload_size f size).v ≡ size / 256 ∷ size % 256 ∷ []
unfolding write_size
written_short f size h lo hi =
    ground (arith, v-set_ws_payload_size f size 0 h, v-set_ws_payload_size f size 1 h)

load-write_size :
    (f : WsFrame) (size : ℕ)
    → 0xffff < size
    → load 8 0 (write_size f size).v ≡ reverse (le_bytes 8 size)
unfolding write_size
load-write_size f size lo =
    let long : ltb 0xffff size ≡ true = ground arith in rw long (reversed_bytes size)

-- A size that needs more than 16 bits stands in the header as its eight bytes, the highest first.
pub written_long :
    (f : WsFrame) (size : ℕ)
    → IsFrame f
    → 0xffff < size
    → load 8 0 (set_ws_payload_size f size).v ≡ reverse (le_bytes 8 size)
written_long f size h lo = eight ∙ load-write_size f size lo
  where
    byte : (i : ℕ) → i < 8 → (set_ws_payload_size f size).v i ≡ (write_size f size).v i
    byte i lt = v-set_ws_payload_size f size i h (ground arith)

    eight : load 8 0 (set_ws_payload_size f size).v ≡ load 8 0 (write_size f size).v
    eight = rw (
      byte 0 (omega arith),
      byte 1 (omega arith),
      byte 2 (omega arith),
      byte 3 (omega arith),
      byte 4 (omega arith),
      byte 5 (omega arith),
      byte 6 (omega arith),
      byte 7 (omega arith),
    )

-- What get_ws_payload_size reads, by the code in the header.
pub read_size :
    (g : WsFrame) (t code : ℕ)
    → t ≤ 1
    → code < 128
    → g.size ≡ t * 128 + code
    → get_ws_payload_size g ≡ (
        if code == 0x7f
        then reversell (m_size g)
        else if code == 0x7e
        then swap_short (l_size g % 2 ^ 16)
        else code)
unfolding get_ws_payload_size
read_size g t code ht hc e = ground (arith, low_seven g.size)

-- A size that fits 16 bits is read back as it was written.
pub get_ws_payload_size-set_ws_payload_size :
    (f : WsFrame) (size : ℕ)
    → IsFrame f
    → size ≤ 0xffff
    → get_ws_payload_size (set_ws_payload_size f size) ≡ size
get_ws_payload_size-set_ws_payload_size f size h le = ground (
  arith,
  h.size,
  size-set_ws_payload_size f size h,
  read_size (set_ws_payload_size f size) (f.size / 128) (size_code size),
  written_short f size h,
)

-- A size from 2^16 on, and below 2^48, is read back as 0: only the two highest of its eight bytes
-- are looked at.
pub get_ws_payload_size-set_ws_payload_size_long :
    (f : WsFrame) (size : ℕ)
    → IsFrame f
    → 0xffff < size
    → size < 2 ^ 48
    → get_ws_payload_size (set_ws_payload_size f size) ≡ 0
get_ws_payload_size-set_ws_payload_size_long f size h lo hi = ground (
  arith,
  h.size,
  size-set_ws_payload_size f size h,
  read_size (set_ws_payload_size f size) (f.size / 128) (size_code size),
  written_long f size h lo,
  reversell_zero,
)
