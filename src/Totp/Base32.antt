-- ===== src/Totp/Base32.antt =====
-- one-true-pairing/src/totp.rs, `decode_base32`.
pub mod Encode
use one_true_pairing.Common.{
  ℕ, ◌+◌, ◌-◌, ◌*◌, ◌/◌, ◌%◌, ◌^◌, Bool, true, false, ◌&&◌, ◌||◌, Option, none, some, List, [], ◌∷◌,
  ◌++◌, leb, ◌==◌, if◌then◌else◌, length,
}
use one_true_pairing.Common.Bytes.{Bytes}

unfoldable pub in_charset : ℕ → Bool
in_charset b =
    (leb b'A' b && leb b b'Z') || (leb b'a' b && leb b b'z') || (leb b'2' b && leb b b'7')

unfoldable pub charset_ok : Bytes → Bool
unfolding in_charset
charset_ok [] = true
charset_ok (b ∷ bs) = in_charset b && charset_ok bs

-- The five bits of a character. The check of the charset has passed, so what is no letter is one
-- of `2` to `7`, as the source asserts.
unfoldable pub quintet : ℕ → ℕ
quintet b =
    if leb b'A' b && leb b b'Z'
    then b - b'A'
    else if leb b'a' b && leb b b'z'
    then b - b'a'
    else b - b'2' + 26

-- `value <<= 5; value |= quintet` on a `u64`: the five low bits are clear, so `|` adds.
abbrev pub shift_in : ℕ → ℕ → ℕ
shift_in value b = value * 32 % 2 ^ 64 + quintet b

-- The loop over the characters of a chunk.
unfoldable pub accumulate : ℕ → Bytes → ℕ
accumulate value [] = value
accumulate value (b ∷ bs) = accumulate (shift_in value b) bs

-- `(value >> k) & 0xFF`
abbrev pub byte_at : ℕ → ℕ → ℕ
byte_at value k = value / 2 ^ k % 256

-- The `match chunk.len()` on the value of a chunk of at most eight characters.
unfoldable pub chunk_bytes : ℕ → ℕ → Option Bytes
chunk_bytes len value =
    if len == 1
    then none
    else if len == 2
    then some (byte_at value 2 ∷ [])
    else if len == 3
    then none
    else if len == 4
    then some (byte_at value 12 ∷ byte_at value 4 ∷ [])
    else if len == 5
    then some (byte_at value 17 ∷ byte_at value 9 ∷ byte_at value 1 ∷ [])
    else if len == 6
    then none
    else if len == 7
    then some (byte_at value 27 ∷ byte_at value 19 ∷ byte_at value 11 ∷ byte_at value 3 ∷ [])
    else some (
        byte_at value 32
        ∷ byte_at value 24
        ∷ byte_at value 16
        ∷ byte_at value 8
        ∷ byte_at value 0
        ∷ [])

abbrev pub decode_chunk : Bytes → Option Bytes
decode_chunk chunk = chunk_bytes (length chunk) (accumulate 0 chunk)

-- One round of the loop: the bytes of a chunk in front of those of the later chunks.
abbrev pub prepend : Option Bytes → Option Bytes → Option Bytes
prepend none later = none
prepend (some bs) none = none
prepend (some bs) (some later) = some (bs ++ later)

-- The loop over `chunks(8)`.
unfoldable pub decode_chunks : Bytes → Option Bytes
decode_chunks [] = some []
decode_chunks (a ∷ b ∷ c ∷ d ∷ e ∷ f ∷ g ∷ h ∷ rest) =
    prepend (decode_chunk (a ∷ b ∷ c ∷ d ∷ e ∷ f ∷ g ∷ h ∷ [])) (decode_chunks rest)
decode_chunks last = decode_chunk last

unfoldable pub decode_base32 : Bytes → Option Bytes
decode_base32 b32 = if charset_ok b32 then decode_chunks b32 else none
