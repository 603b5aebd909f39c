-- ===== src/Prelude/Bytes.antt =====
-- Bytes and little-endian words: what C's bit operations do to a byte, checked on every value.
use Prim.Native.Nat.{ℕ, zero, suc, ◌+◌, ◌*◌, ◌/◌, ◌%◌, ◌^◌, ◌<◌, bit_and, bit_or, bit_xor}
use mathlib.Core.Path.{◌≡◌, refl}
use mathlib.Core.Bool.{Bool, true, ◌&&◌}
use mathlib.Core.List.{List, [], ◌∷◌}
use native.Mathlib.Omega.{arith}
use native.Mathlib.Nat.{pow-suc}
use arclaunch.Prelude.Tests.{◌==◌}
use arclaunch.Prelude.Lists.{length, All}

abbrev pub IsByte : ℕ → Type 0
IsByte b = b < 256

-- The first `limit` numbers pass the test.
holds_to : (ℕ → Bool) → ℕ → Bool
holds_to test zero = true
holds_to test (suc limit) = holds_to test limit && test limit

of_table : (test : ℕ → Bool) (limit n : ℕ) → n < limit → holds_to test limit ≡ true → test n ≡ true
unfolding holds_to
of_table test zero n lt h = absurd (omega arith)
of_table test (suc limit) n lt h = ground (arith, of_table test limit n)

eq_of_test : (a b : ℕ) → (a == b) ≡ true → a ≡ b
eq_of_test a b h = ground arith

low_seven_table : holds_to (λ b. bit_and b 0x7f == b % 128) 256 ≡ true
unfolding holds_to
low_seven_table = refl

pub low_seven : (b : ℕ) → IsByte b → bit_and b 0x7f ≡ b % 128
low_seven b h = eq_of_test _ _ (of_table (λ b. bit_and b 0x7f == b % 128) 256 b h low_seven_table)

top_bit_table : holds_to (λ b. bit_and b 0x80 == b / 128 * 128) 256 ≡ true
unfolding holds_to
top_bit_table = refl

pub top_bit : (b : ℕ) → IsByte b → bit_and b 0x80 ≡ b / 128 * 128
top_bit b h = eq_of_test _ _ (of_table (λ b. bit_and b 0x80 == b / 128 * 128) 256 b h top_bit_table)

set_top_table : holds_to (λ b. bit_or b 0x80 == b % 128 + 128) 256 ≡ true
unfolding holds_to
set_top_table = refl

pub set_top : (b : ℕ) → IsByte b → bit_or b 0x80 ≡ b % 128 + 128
set_top b h = eq_of_test _ _ (of_table (λ b. bit_or b 0x80 == b % 128 + 128) 256 b h set_top_table)

low_four_table : holds_to (λ b. bit_and b 0x0f == b % 16) 256 ≡ true
unfolding holds_to
low_four_table = refl

pub low_four : (b : ℕ) → IsByte b → bit_and b 0x0f ≡ b % 16
low_four b h = eq_of_test _ _ (of_table (λ b. bit_and b 0x0f == b % 16) 256 b h low_four_table)

nibble_table : holds_to (λ n. bit_and (bit_or 0x80 n) (bit_or 0xf0 n) == 128 + n) 16 ≡ true
unfolding holds_to
nibble_table = refl

-- The low four bits that a byte with the top bit takes over.
pub marked_nibble : (n : ℕ) → n < 16 → bit_and (bit_or 0x80 n) (bit_or 0xf0 n) ≡ 128 + n
marked_nibble n h =
    eq_of_test _ _
      (of_table (λ n. bit_and (bit_or 0x80 n) (bit_or 0xf0 n) == 128 + n) 16 n h nibble_table)

marked_table : holds_to (λ n. bit_or 0x80 n == 128 + n) 16 ≡ true
unfolding holds_to
marked_table = refl

pub mark_nibble : (n : ℕ) → n < 16 → bit_or 0x80 n ≡ 128 + n
mark_nibble n h = eq_of_test _ _ (of_table (λ n. bit_or 0x80 n == 128 + n) 16 n h marked_table)

abbrev joins : ℕ → ℕ → Bool
joins b n = bit_or (bit_and b 0x80) n == b / 128 * 128 + n

join_table : holds_to (λ b. holds_to (joins b) 128) 256 ≡ true
unfolding holds_to
join_table = refl

-- The top bit of one byte with the low bits of another.
pub join_top : (b n : ℕ) → IsByte b → n < 128 → bit_or (bit_and b 0x80) n ≡ b / 128 * 128 + n
join_top b n hb hn =
    eq_of_test _ _
      (of_table (joins b) 128 n hn (of_table (λ b. holds_to (joins b) 128) 256 b hb join_table))

xor_twice_table : holds_to (λ a. holds_to (λ b. bit_xor (bit_xor a b) b == a) 256) 256 ≡ true
unfolding holds_to
xor_twice_table = refl

pub xor_twice : (a b : ℕ) → IsByte a → IsByte b → bit_xor (bit_xor a b) b ≡ a
xor_twice a b ha hb = eq_of_test _ _ (
    of_table (λ b. bit_xor (bit_xor a b) b == a) 256 b hb
      (of_table (λ a. holds_to (λ b. bit_xor (bit_xor a b) b == a) 256) 256 a ha xor_twice_table))

xor_byte_table : holds_to (λ a. holds_to (λ b. bit_xor a b / 256 == 0) 256) 256 ≡ true
unfolding holds_to
xor_byte_table = refl

pub xor-IsByte : (a b : ℕ) → IsByte a → IsByte b → IsByte (bit_xor a b)
xor-IsByte a b ha hb = omega (
  arith,
  eq_of_test _ _ (
      of_table (λ b. bit_xor a b / 256 == 0) 256 b hb
        (of_table (λ a. holds_to (λ b. bit_xor a b / 256 == 0) 256) 256 a ha xor_byte_table)),
)

-- The `n` bytes of a word in memory, and the word that bytes in memory make.
abbrev pub le_bytes : ℕ → ℕ → List ℕ
le_bytes zero x = []
le_bytes (suc n) x = x % 256 ∷ le_bytes n (x / 256)

abbrev pub le_value : List ℕ → ℕ
le_value [] = 0
le_value (b ∷ bs) = b + 256 * le_value bs

pub le_value-le_bytes : (n x : ℕ) → x < 256 ^ n → le_value (le_bytes n x) ≡ x
le_value-le_bytes zero x h = omega arith
le_value-le_bytes (suc n) x h =
    omega (arith, pow-suc 256 n, le_value-le_bytes n (x / 256) (omega (arith, pow-suc 256 n)))

pub le_bytes-le_value : (bs : List ℕ) → All IsByte bs → le_bytes (length bs) (le_value bs) ≡ bs
le_bytes-le_value [] h = refl
le_bytes-le_value (b ∷ bs) h = ground (arith, le_bytes-le_value bs h.1)

pub le_value-lt : (bs : List ℕ) → All IsByte bs → le_value bs < 256 ^ length bs
le_value-lt [] h = omega arith
le_value-lt (b ∷ bs) h = omega (arith, pow-suc 256 (length bs), le_value-lt bs h.1)

pub le_bytes-IsByte : (n x : ℕ) → All IsByte (le_bytes n x)
le_bytes-IsByte zero x = tt
le_bytes-IsByte (suc n) x = (omega arith, le_bytes-IsByte n (x / 256))
