-- ===== src/WhaleLand/Connection/Environment.antt =====
-- connection.rs, `new_from_env`: the socket that the environment names. The variables, and what
-- comes of a connection to a path, are parameters.
use one_true_pairing.Common.{
  ℕ, Bool, true, false, Option, none, some, [], ◌∷◌, ◌++◌, ◌==◌, if◌then◌else◌,
}
use one_true_pairing.Common.Bytes.{Bytes, codes}
use one_true_pairing.WhaleLand.Error.{missing_env_var, io, Result, ok, err, ◌>>=◌}
use one_true_pairing.WhaleLand.Connection.{first_object_id}

abbrev pub runtime_dir_var : Bytes
runtime_dir_var = codes "XDG_RUNTIME_DIR"

abbrev pub wayland_display_var : Bytes
wayland_display_var = codes "WAYLAND_DISPLAY"

abbrev pub default_wayland_display : Bytes
default_wayland_display = codes "wayland-0"

abbrev pub is_absolute : Bytes → Bool
is_absolute [] = false
is_absolute (b ∷ bs) = b == b'/'

-- Whether `PathBuf::push` puts a separator behind this path.
abbrev pub needs_separator : Bytes → Bool
needs_separator [] = false
needs_separator (b ∷ []) = if b == b'/' then false else true
needs_separator (b ∷ c ∷ bs) = needs_separator (c ∷ bs)

-- `PathBuf::push`: an absolute path takes the place of the one before.
unfoldable pub push : Bytes → Bytes → Bytes
push path more =
    if is_absolute more
    then more
    else if needs_separator path
    then path ++ (b'/' ∷ more)
    else path ++ more

-- A missing variable is an error; `connect` has the code of the error, if there is one.
unfoldable pub runtime_dir : Option Bytes → Result Bytes
runtime_dir none = err (missing_env_var runtime_dir_var)
runtime_dir (some dir) = ok dir

abbrev pub display_or_default : Option Bytes → Bytes
display_or_default none = default_wayland_display
display_or_default (some name) = name

unfoldable pub connected : Option ℕ → Result ℕ
connected none = ok first_object_id
connected (some e) = err (io e)

-- The new connection is the counter of its object IDs; it has no event handlers.
unfoldable pub new_from_env : (Bytes → Option Bytes) → (Bytes → Option ℕ) → Result ℕ
unfolding push runtime_dir connected
new_from_env var_os connect = do
  dir ← runtime_dir (var_os runtime_dir_var)
  connected (connect (push dir (display_or_default (var_os wayland_display_var))))
