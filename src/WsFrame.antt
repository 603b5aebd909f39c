-- ===== src/WsFrame.antt =====
-- examples/ws: the frames of ws_encode_decode.h and the functions of src/ws on one frame. The
-- machine is little-endian, as reversell takes it to be. `get_ws_payload_size` calls reversell and
-- ntohs without a declaration in sight; they are taken with the types that utility.h and the
-- system's headers give them.
pub mod Keeps
pub mod Masks
pub mod Reverse
pub mod Sizes
use Prim.Native.Nat.{◌*◌, ◌/◌, ◌%◌, ◌^◌, bit_and, bit_or, bit_xor}
use mathlib.Core.Option
use arclaunch.Prelude.{
  ℕ, zero, suc, ◌+◌, Bool, true, false, not, Option, none, some, List, [], ◌∷◌, map, ltb, ◌==◌,
  if◌then◌else◌,
}
use arclaunch.Prelude.Bytes.{le_bytes, le_value}

abbrev pub ws_continuation : ℕ
ws_continuation = 0x0

abbrev pub ws_text : ℕ
ws_text = 0x1

abbrev pub ws_binary : ℕ
ws_binary = 0x2

abbrev pub ws_close : ℕ
ws_close = 0x8

abbrev pub ws_ping : ℕ
ws_ping = 0x9

abbrev pub ws_pong : ℕ
ws_pong = 0xa

-- The union `v` is its bytes by their offset. `none` is the null pointer.
pub record WsFrame : Type 0 where
  pub opcode : ℕ
  pub size : ℕ
  pub v : ℕ → ℕ
  pub payload : Option (List ℕ)

-- Memory from the offset on, and a write of bytes there.
abbrev pub load : ℕ → ℕ → (ℕ → ℕ) → List ℕ
load zero at v = []
load (suc n) at v = v at ∷ load n (at + 1) v

abbrev pub store : ℕ → List ℕ → (ℕ → ℕ) → ℕ → ℕ
store at [] v = v
store at (b ∷ bs) v = store (at + 1) bs λ i. if i == at then b else v i

-- The swaps of reversell, on the bytes of the union.
abbrev pub swapped : List ℕ → List ℕ
swapped (a ∷ b ∷ c ∷ d ∷ e ∷ f ∷ g ∷ h ∷ []) = h ∷ g ∷ f ∷ e ∷ d ∷ c ∷ b ∷ a ∷ []
swapped bs = bs

unfoldable pub reversell : ℕ → ℕ
reversell bytes = le_value (swapped (le_bytes 8 bytes))

-- htons and ntohs
abbrev pub swap_short : ℕ → ℕ
swap_short x = x % 256 * 256 + x / 256 % 256

abbrev pub m_size : WsFrame → ℕ
m_size f = le_value (load 2 0 f.v)

abbrev pub l_size : WsFrame → ℕ
l_size f = le_value (load 8 0 f.v)

unfoldable pub get_ws_opcode : WsFrame → ℕ
get_ws_opcode f = bit_and f.opcode 0x0f

unfoldable pub ws_frame_is_final : WsFrame → ℕ
ws_frame_is_final f = bit_and f.opcode 0x80

unfoldable pub make_ws_frame_final : WsFrame → WsFrame
make_ws_frame_final f = record f { opcode = bit_or f.opcode 0x80 }

unfoldable pub make_ws_frame_non_final : WsFrame → WsFrame
make_ws_frame_non_final f = record f { opcode = bit_and f.opcode 0x7f }

unfoldable pub set_ws_opcode : WsFrame → ℕ → WsFrame
unfolding make_ws_frame_final
set_ws_opcode f op =
    let g : WsFrame = record f { opcode = bit_and f.opcode (bit_or 0xf0 op) } in
    if bit_and op 0x08 == 0 then g else make_ws_frame_final g

unfoldable pub ws_frame_is_masked : WsFrame → Bool
ws_frame_is_masked f = not (bit_and f.size 0x80 == 0)

-- The offset in `v` of the mask.
unfoldable pub get_ws_frame_mask : WsFrame → Option ℕ
unfolding ws_frame_is_masked
get_ws_frame_mask f =
    if not (ws_frame_is_masked f)
    then none
    else if f.size == 0xff
    then some 8
    else if f.size == 0xfe
    then some 2
    else some 0

unfoldable pub get_ws_header_size : WsFrame → ℕ
unfolding ws_frame_is_masked
get_ws_header_size f =
    if f.size == 0xff
    then 14
    else if f.size == 0xfe
    then 8
    else if f.size == 0x7f
    then 10
    else if f.size == 0x7e
    then 4
    else if ws_frame_is_masked f
    then 6
    else 2

unfoldable pub get_ws_payload_size : WsFrame → ℕ
unfolding reversell
get_ws_payload_size f =
    let size = bit_and f.size 0x7f in
    if size == 0x7f
    then reversell (m_size f)
    else if size == 0x7e
    then swap_short (l_size f % 2 ^ 16)
    else size

-- The branches of set_ws_payload_size on the size, a 64-bit number.
unfoldable pub write_size : WsFrame → ℕ → WsFrame
unfolding reversell
write_size f size =
    if ltb 0xffff size
    then record f {
      size = bit_or (bit_and f.size 0x80) 0x7f;
      v = store 0 (le_bytes 8 (reversell size)) f.v;
    }
    else if ltb 0x7d size
    then record f {
      size = bit_or (bit_and f.size 0x80) 0x7e;
      v = store 0 (le_bytes 2 (swap_short (size % 2 ^ 16))) f.v;
    }
    else record f { size = bit_or (bit_and f.size 0x80) size }

abbrev pub mask_at : Option ℕ → WsFrame → List ℕ
mask_at none f = []
mask_at (some at) f = load 4 at f.v

abbrev pub put_mask : Option ℕ → List ℕ → WsFrame → WsFrame
put_mask none mask f = f
put_mask (some at) mask f = record f { v = store at mask f.v }

unfoldable pub set_ws_payload_size : WsFrame → ℕ → WsFrame
set_ws_payload_size f size =
    let mask = mask_at (get_ws_frame_mask f) f in
    let g = write_size f size in
    if ws_frame_is_masked f then put_mask (get_ws_frame_mask g) mask g else g

-- The loop over the payload from the index `c` on; `none` if it runs past the end.
unfoldable pub xor_payload : (ℕ → ℕ) → ℕ → ℕ → List ℕ → Option (List ℕ)
xor_payload mask c zero rest = some rest
xor_payload mask c (suc n) [] = none
xor_payload mask c (suc n) (b ∷ rest) =
    Option.map (λ xs. bit_xor b (mask (c % 4)) ∷ xs) (xor_payload mask (c + 1) n rest)

unfoldable pub xor_frame : ℕ → ℕ → WsFrame → Option WsFrame
xor_frame at size f = elim f.payload [
  | none ↦ if size == 0 then some f else none
  | some bytes ↦
      Option.map (λ xs. let g : WsFrame = record f { payload = some xs } in g)
        (xor_payload (λ k. f.v (at + k)) 0 size bytes)
]

-- `randoms` are the four results of random(). `none` stands for undefined behaviour.
unfoldable pub mask_ws_frame : List ℕ → WsFrame → Option WsFrame
mask_ws_frame randoms f =
    let size = get_ws_payload_size f in
    if ws_frame_is_masked f
    then some f
    else (let g : WsFrame = record f { size = bit_or f.size 0x80 } in
        elim (get_ws_frame_mask g) [
          | none ↦ none
          | some at ↦
              let h : WsFrame = record g { v = store at (map (λ r. r % 256) randoms) g.v } in
              xor_frame at size h
        ])

unfoldable pub unmask_ws_frame : WsFrame → Option WsFrame
unmask_ws_frame f =
    let size = get_ws_payload_size f in
    if not (ws_frame_is_masked f) then some f else elim (get_ws_frame_mask f) [
      | none ↦ none
      | some at ↦ xor_frame at size (record f { size = bit_and f.size 0x7f })
    ]
