-- ===== src/Common/Bytes.antt =====
-- Bytes and byte strings: the byte order of the machine, 32-bit words as four bytes, and UTF-8.
use one_true_pairing.Common.Tests.{ltb, leb, ◌==◌, if◌then◌else◌}
use one_true_pairing.Common.Lists.{length, All}
use Prim.Native.Nat.{ℕ, zero, suc, ◌+◌, ◌*◌, ◌/◌, ◌%◌, ◌^◌, ◌<◌}
use Prim.Native.Char.{code}
use Prim.Native.String.{String}
use mathlib.Core.Path.{◌≡◌, refl}
use mathlib.Core.Bool.{Bool, true, false, ◌&&◌}
use mathlib.Core.List.{List, [], ◌∷◌}
use native.Mathlib.Omega.{arith}

abbrev pub Bytes : Type 0
Bytes = List ℕ

abbrev pub IsByte : ℕ → Type 0
IsByte b = b < 256

-- The bytes of an ASCII text.
abbrev pub codes : String → Bytes
codes String.[] = []
codes (String.◌∷◌ c s) = code c ∷ codes s

-- The byte order of the machine that the program runs on.
pub data Endian : Type 0 where
  little big : Endian

-- `u32::to_ne_bytes`
unfoldable pub to_ne_bytes : Endian → ℕ → Bytes
to_ne_bytes little w = (w % 256) ∷ (w / 256 % 256) ∷ (w / 65536 % 256) ∷ (w / 16777216 % 256) ∷ []
to_ne_bytes big w = (w / 16777216 % 256) ∷ (w / 65536 % 256) ∷ (w / 256 % 256) ∷ (w % 256) ∷ []

-- `u32::from_ne_bytes`. The type of its argument is `[u8; 4]`, so no other length occurs.
unfoldable pub from_ne_bytes : Endian → Bytes → ℕ
from_ne_bytes little (a ∷ b ∷ c ∷ d ∷ []) = a + 256 * b + 65536 * c + 16777216 * d
from_ne_bytes big (a ∷ b ∷ c ∷ d ∷ []) = d + 256 * c + 65536 * b + 16777216 * a
from_ne_bytes _ _ = 0

pub length-to_ne_bytes : (en : Endian) (w : ℕ) → length (to_ne_bytes en w) ≡ 4
unfolding to_ne_bytes
length-to_ne_bytes little w = refl
length-to_ne_bytes big w = refl

pub from_ne_bytes-to_ne_bytes :
    (en : Endian) (w : ℕ) → w < 2 ^ 32 → from_ne_bytes en (to_ne_bytes en w) ≡ w
unfolding to_ne_bytes from_ne_bytes
from_ne_bytes-to_ne_bytes little w h = omega arith
from_ne_bytes-to_ne_bytes big w h = omega arith

pub to_ne_bytes-IsByte : (en : Endian) (w : ℕ) → All IsByte (to_ne_bytes en w)
unfolding to_ne_bytes
to_ne_bytes-IsByte little w = omega arith
to_ne_bytes-IsByte big w = omega arith

-- What `std::str::from_utf8` expects next. `more n lo hi`: a byte from `lo` to `hi`, and then `n`
-- continuation bytes.
pub data Utf8State : Type 0 where
  start invalid : Utf8State
  more : ℕ → ℕ → ℕ → Utf8State

abbrev between : ℕ → ℕ → ℕ → Bool
between lo hi b = leb lo b && leb b hi

unfoldable pub utf8_step : Utf8State → ℕ → Utf8State
utf8_step start b =
    if ltb b 0x80
    then start
    else if between 0xc2 0xdf b
    then more 0 0x80 0xbf
    else if b == 0xe0
    then more 1 0xa0 0xbf
    else if b == 0xed
    then more 1 0x80 0x9f
    else if between 0xe1 0xef b
    then more 1 0x80 0xbf
    else if b == 0xf0
    then more 2 0x90 0xbf
    else if between 0xf1 0xf3 b
    then more 2 0x80 0xbf
    else if b == 0xf4
    then more 2 0x80 0x8f
    else invalid
utf8_step invalid b = invalid
utf8_step (more zero lo hi) b = if between lo hi b then start else invalid
utf8_step (more (suc n) lo hi) b = if between lo hi b then more n 0x80 0xbf else invalid

abbrev utf8_end : Utf8State → Bool
utf8_end start = true
utf8_end _ = false

utf8_from : Utf8State → Bytes → Bool
utf8_from s [] = utf8_end s
utf8_from s (b ∷ bs) = utf8_from (utf8_step s b) bs

-- The test of `std::str::from_utf8`: the bytes are well-formed UTF-8.
unfoldable pub is_utf8 : Bytes → Bool
unfolding utf8_from utf8_step
is_utf8 = utf8_from start

is_utf8_euro : is_utf8 (0xe2 ∷ 0x82 ∷ 0xac ∷ []) ≡ true
unfolding is_utf8
is_utf8_euro = refl

is_utf8_surrogate : is_utf8 (0xed ∷ 0xa0 ∷ 0x80 ∷ []) ≡ false
unfolding is_utf8
is_utf8_surrogate = refl

-- ASCII is UTF-8.
pub ascii-is_utf8 : (bs : Bytes) → All (λ b. b < 128) bs → is_utf8 bs ≡ true
unfolding is_utf8
ascii-is_utf8 [] h = refl
ascii-is_utf8 (b ∷ bs) h = ground (arith, ascii-is_utf8 bs h.1)
