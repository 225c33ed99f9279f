-- ===== src/WhaleLand/Error.antt =====
-- whale-land/src/error.rs and lib.rs: the errors, the object IDs, and the outcome of a call.
use one_true_pairing.Common.{ℕ, ◌<◌, ◌^◌, Option, none, some, ◌==◌, if◌then◌else◌}
use one_true_pairing.Common.Bytes.{Bytes}

-- `ObjectId` is a `NonZero<u32>`; `NewObjectId` wraps one.
abbrev pub ObjectId : Type 0
ObjectId = ℕ

abbrev pub NewObjectId : Type 0
NewObjectId = ObjectId

abbrev pub IsObjectId : ObjectId → Type 0
IsObjectId n = (0 < n) × (n < 2 ^ 32)

-- `ObjectId::new`: none for 0.
unfoldable pub object_id_new : ℕ → Option ObjectId
object_id_new n = if n == 0 then none else some n

-- `ObjectId::DISPLAY`
abbrev pub display : ObjectId
display = 1

pub record NewObject : Type 0 where
  pub object_id : ObjectId
  pub interface : Bytes
  pub interface_version : ℕ

-- An `io::Error` is kept as its operating system code.
pub data Error : Type 0 where
  io : ℕ → Error
  missing_env_var : Bytes → Error
  packet_too_long : ℕ → ℕ → Error
  packet_too_short : ℕ → ℕ → Error
  field_out_of_bounds : ℕ → ℕ → Error
  fd_out_of_bounds : ℕ → Error
  string_misplaced_nul : Option ℕ → ℕ → Error
  string_invalid_utf8 : Bytes → Error
  incomplete_read : ℕ → ℕ → ℕ → ℕ → Error
  zero_object_id : Error
  no_event_handler : ObjectId → Error

-- How a call ends: a value, an error, a panic, or never (`hang`).
pub data Result {ℓ} (A : Type ℓ) : Type ℓ where
  ok : A → Result A
  err : Error → Result A
  panic : Result A
  hang : Result A

infixl 5 ◌>>=◌
abbrev pub ◌>>=◌ {ℓ κ} : {A : Type ℓ} {B : Type κ} → Result A → (A → Result B) → Result B
ok a >>= f = f a
err e >>= f = err e
panic >>= f = panic
hang >>= f = hang
