-- ===== src/Totp/Hotp/Codes.antt =====
-- What `hotp` and `totp` of totp.rs return.
use one_true_pairing.Common.{
  ℕ, ◌+◌, ◌*◌, ◌/◌, ◌%◌, ◌^◌, ◌≤◌, ◌<◌, ◌≡◌, refl, false, some, [], ◌∷◌, arith, ◌==◌, length, take,
  drop, length-take, length-drop, inl, inr, ◌⊎◌,
}
use one_true_pairing.Common.Bytes.{Bytes}
use one_true_pairing.Totp.Hotp.{
  Algorithm, sha1, sha256, sha512, u64_to_be_bytes, u32_from_be_bytes, last, truncate, reduce, hotp,
  totp,
}
use one_true_pairing.Common.{le→leb}
use native.Mathlib.Nat.{div-eq_of_lt-le}

-- The sizes of the three digests.
abbrev pub output_size : Algorithm → ℕ
output_size sha1 = 20
output_size sha256 = 32
output_size sha512 = 64

-- What an HMAC function returns: as many bytes as the digest has.
pub record IsHmac (hmac : Algorithm → Bytes → Bytes → Bytes) : Type 0 where
  pub length_hmac : (a : Algorithm) (key text : Bytes) → length (hmac a key text) ≡ output_size a

last-some : (bs : Bytes) → 0 < length bs → (b : ℕ) × (last bs ≡ some b)
unfolding last
last-some [] h = absurd (omega arith)
last-some (b ∷ []) h = (b, refl)
last-some (b ∷ c ∷ bs) h = last-some (c ∷ bs) (omega arith)

u32-some : (bs : Bytes) → length bs ≡ 4 → (t : ℕ) × (u32_from_be_bytes bs ≡ some t)
unfolding u32_from_be_bytes
u32-some (a ∷ b ∷ c ∷ d ∷ []) h = (_, refl)
u32-some [] h = absurd (omega arith)
u32-some (a ∷ []) h = absurd (omega arith)
u32-some (a ∷ b ∷ []) h = absurd (omega arith)
u32-some (a ∷ b ∷ c ∷ []) h = absurd (omega arith)
u32-some (a ∷ b ∷ c ∷ d ∷ e ∷ bs) h = absurd (omega arith)

-- A digest of at least 20 bytes has four bytes at every offset.
truncate-some : (bs : Bytes) → 20 ≤ length bs → (t : ℕ) × (truncate bs ≡ some t) × (t < 2 ^ 31)
unfolding truncate
truncate-some bs h =
    let (b, e) = last-some bs (omega arith) in
    let (t, e') =
      u32-some (take 4 (drop (b % 16) bs))
        (omega (arith, length-take 4 (drop (b % 16) bs), length-drop (b % 16) bs)) in
    (t % 2 ^ 31, rw (e, truncate) (rw e'), omega arith)

six_to_eight : (d : ℕ) → 6 ≤ d → d ≤ 8 → (d ≡ 6) ⊎ ((d ≡ 7) ⊎ (d ≡ 8))
six_to_eight d lo hi = grind arith

reduce_lem : (d t : ℕ) → 6 ≤ d → d ≤ 8 → (reduce d t ≡ some (t % 10 ^ d)) × (t % 10 ^ d < 10 ^ d)
unfolding reduce
reduce_lem d t lo hi = elim (six_to_eight d lo hi) [
  | inl e ↦ rw e (refl, omega arith)
  | inr (inl e) ↦ rw e (refl, omega arith)
  | inr (inr e) ↦ rw e (refl, omega arith)
]

module _ {hmac : Algorithm → Bytes → Bytes → Bytes} (h : IsHmac hmac) where
  -- With an HMAC whose result has the digest's length and with 6 to 8 digits, hotp does not panic,
  -- and its code has at most that many digits.
  pub hotp_lt :
      (a : Algorithm) (secret : Bytes) (counter digits : ℕ)
      → 6 ≤ digits
      → digits ≤ 8
      → (code : ℕ) × (hotp hmac a secret counter digits ≡ some code) × (code < 10 ^ digits)
  unfolding hotp reduce
  hotp_lt a secret counter digits lo hi =
      let (t, e, b) = truncate-some (hmac a secret (u64_to_be_bytes counter)) (long a) in
      let (f, g) = reduce_lem digits t lo hi in
      (t % 10 ^ digits, rw (le→leb 6 digits lo, le→leb digits 8 hi) (rw e f), g)
    where
      long : (a : Algorithm) → 20 ≤ length (hmac a secret (u64_to_be_bytes counter))
      long sha1 = omega (arith, h.length_hmac sha1 secret (u64_to_be_bytes counter))
      long sha256 = omega (arith, h.length_hmac sha256 secret (u64_to_be_bytes counter))
      long sha512 = omega (arith, h.length_hmac sha512 secret (u64_to_be_bytes counter))

module _ (hmac : Algorithm → Bytes → Bytes → Bytes) where
  -- At every moment of the period number k since the epoch, totp gives the code of hotp for the
  -- counter k.
  pub totp-hotp :
      (a : Algorithm) (secret : Bytes) (k r period digits : ℕ)
      → r < period
      → totp hmac a secret (k * period + r) period digits ≡ hotp hmac a secret k digits
  unfolding totp
  totp-hotp a secret k r period digits b =
      let e : (period == 0) ≡ false = ground arith in
      let q : (k * period + r) / period ≡ k = div-eq_of_lt-le period (omega arith) (grind arith) in
      rw (e, q)
