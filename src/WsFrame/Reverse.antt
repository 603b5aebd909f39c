-- ===== src/WsFrame/Reverse.antt =====
-- utility/reversell.c.
use Prim.Native.Nat.{◌^◌}
use arclaunch.Prelude.{ℕ, ◌<◌, ◌≡◌, ap, ◌∙◌, arith, All}
use mathlib.Core.List.{reverse}
use arclaunch.Prelude.Bytes.{
  IsByte, le_bytes, le_value, le_value-le_bytes, le_bytes-le_value, le_value-lt,
}
use arclaunch.WsFrame.{reversell, swapped}

swapped-IsByte : (x : ℕ) → All IsByte (swapped (le_bytes 8 x))
swapped-IsByte x = omega arith

pub reversed_bytes : (x : ℕ) → le_bytes 8 (reversell x) ≡ reverse (le_bytes 8 x)
unfolding reversell
reversed_bytes x = le_bytes-le_value (swapped (le_bytes 8 x)) (swapped-IsByte x)

-- `reversell` reads the eight bytes of a word in the opposite order; the result is a 64-bit word
-- again, and reversed once more it is the first.
pub reversell-reverse :
    (x : ℕ)
    → x < 2 ^ 64
    → (le_bytes 8 (reversell x) ≡ reverse (le_bytes 8 x))
      × (reversell x < 2 ^ 64)
      × (reversell (reversell x) ≡ x)
unfolding reversell
reversell-reverse x h = (
  reversed_bytes x,
  le_value-lt (swapped (le_bytes 8 x)) (swapped-IsByte x),
  ap (λ bs. le_value (swapped bs)) (reversed_bytes x) ∙ le_value-le_bytes 8 x h,
)
