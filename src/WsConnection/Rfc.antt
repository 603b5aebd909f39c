-- ===== src/WsConnection/Rfc.antt =====
-- The frames of RFC 6455, section 5.2, with the final bit set: what the code of examples/ws is
-- about. Nothing here is code of the repository.
use Prim.Native.Nat.{◌/◌, ◌%◌, bit_xor}
use mathlib.Core.List.{reverse}
use arclaunch.Prelude.{ℕ, ◌+◌, List, [], ◌∷◌, ◌++◌, ltb, if◌then◌else◌, length}
use arclaunch.Prelude.Bytes.{le_bytes}

-- The length as the seven bits of the second byte, and the bytes that extend it, the highest first.
abbrev pub rfc_code : ℕ → ℕ
rfc_code n = if ltb n 126 then n else if ltb n 0x10000 then 126 else 127

abbrev pub rfc_extension : ℕ → List ℕ
rfc_extension n =
    if ltb n 126
    then []
    else if ltb n 0x10000
    then n / 256 ∷ n % 256 ∷ []
    else reverse (le_bytes 8 n)

-- The header of a frame that is not masked.
abbrev pub rfc_header : ℕ → ℕ → List ℕ
rfc_header opcode n = (128 + opcode) ∷ rfc_code n ∷ rfc_extension n

-- The payload with the four bytes of the mask, which turn round from one byte to the next.
abbrev pub rfc_mask : ℕ → ℕ → ℕ → ℕ → List ℕ → List ℕ
rfc_mask a b c d [] = []
rfc_mask a b c d (x ∷ xs) = bit_xor x a ∷ rfc_mask b c d a xs

-- A frame as a server sends it, and one as a client sends it.
abbrev pub server_frame : ℕ → List ℕ → List ℕ
server_frame opcode payload = rfc_header opcode (length payload) ++ payload

abbrev pub client_frame : ℕ → ℕ → ℕ → ℕ → ℕ → List ℕ → List ℕ
client_frame a b c d opcode payload =
    (128 + opcode)
    ∷ (128 + rfc_code (length payload))
    ∷ (rfc_extension (length payload) ++ a ∷ b ∷ c ∷ d ∷ rfc_mask a b c d payload)
