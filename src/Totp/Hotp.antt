-- ===== src/Totp/Hotp.antt =====
-- one-true-pairing/src/totp.rs, `hotp`, `totp` and `totp_now`. The HMAC of the `hmac` crate is a
-- parameter.
pub mod Codes
use one_true_pairing.Common.{
  ℕ, zero, suc, ◌+◌, ◌-◌, ◌*◌, ◌/◌, ◌%◌, ◌^◌, Bool, true, false, ◌&&◌, Option, none, some, List, [],
  ◌∷◌, ltb, leb, ◌==◌, if◌then◌else◌, length, take, drop, ◌≡◌, ◌≤◌,
}
use one_true_pairing.Common.Bytes.{Bytes}

pub data Algorithm : Type 0 where
  sha1 sha256 sha512 : Algorithm

-- `u64::to_be_bytes`
unfoldable pub u64_to_be_bytes : ℕ → Bytes
u64_to_be_bytes n =
    (n / 2 ^ 56 % 256)
    ∷ (n / 2 ^ 48 % 256)
    ∷ (n / 2 ^ 40 % 256)
    ∷ (n / 2 ^ 32 % 256)
    ∷ (n / 2 ^ 24 % 256)
    ∷ (n / 2 ^ 16 % 256)
    ∷ (n / 2 ^ 8 % 256)
    ∷ (n % 256)
    ∷ []

-- `u32::from_be_bytes` on a slice of four bytes; none stands for the panic of a slice that is
-- not there.
unfoldable pub u32_from_be_bytes : Bytes → Option ℕ
u32_from_be_bytes (a ∷ b ∷ c ∷ d ∷ []) = some (((a * 256 + b) * 256 + c) * 256 + d)
u32_from_be_bytes _ = none

-- `hmac.last().unwrap()`
unfoldable pub last : Bytes → Option ℕ
last [] = none
last (b ∷ []) = some b
last (b ∷ c ∷ bs) = last (c ∷ bs)

-- The dynamic truncation: `& 0xF` and `& 0x7FFF_FFFF` are remainders. None is a panic.
unfoldable pub truncate : Bytes → Option ℕ
unfolding last u32_from_be_bytes
truncate hmac = elim (last hmac) [
  | none ↦ none
  | some b ↦ elim (u32_from_be_bytes (take 4 (drop (b % 16) hmac))) [
    | none ↦ none
    | some t ↦ some (t % 2 ^ 31)
  ]
]

-- The `match digits`; another number of digits is `unreachable!`.
unfoldable pub reduce : ℕ → ℕ → Option ℕ
reduce digits truncated =
    if digits == 6
    then some (truncated % 1_000_000)
    else if digits == 7
    then some (truncated % 10_000_000)
    else if digits == 8
    then some (truncated % 100_000_000)
    else none

module _ (hmac : Algorithm → Bytes → Bytes → Bytes) where
  -- None is a panic: of `assert!`, of `unwrap` or of a slice.
  unfoldable pub hotp : Algorithm → Bytes → ℕ → ℕ → Option ℕ
  hotp algorithm shared_secret counter digits =
      if leb 6 digits && leb digits 8
      then elim (truncate (hmac algorithm shared_secret (u64_to_be_bytes counter))) [
        | none ↦ none
        | some truncated ↦ reduce digits truncated
      ]
      else none

  -- A division by zero is a panic.
  unfoldable pub totp : Algorithm → Bytes → ℕ → ℕ → ℕ → Option ℕ
  totp algorithm shared_secret unix_time period_s digits =
      if period_s == 0 then none else hotp algorithm shared_secret (unix_time / period_s) digits

  -- `totp_now`, on the time since the epoch that the clock shows, in seconds. A clock before 1970,
  -- none, is a panic.
  abbrev pub totp_now : Option ℕ → Algorithm → Bytes → ℕ → ℕ → Option ℕ
  totp_now none algorithm shared_secret period_s digits = none
  totp_now (some unix_time) algorithm shared_secret period_s digits =
      totp algorithm shared_secret unix_time period_s digits
