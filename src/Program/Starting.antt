-- ===== src/Program/Starting.antt =====
-- main.rs, `main`: what the program is when its start-up is over.
use mathlib.Core.Option.{some-injective}
use one_true_pairing.Common.{
  ℕ, ◌≡◌, refl, sym, ap, ◌∙◌, Bool, true, false, Option, none, some, [], ◌∷◌, subst, arith,
  length-append,
}
use one_true_pairing.Common.Int.{ℤ, pos, negsuc}
use one_true_pairing.Common.Bytes.{Bytes, Endian, codes, to_ne_bytes, length-to_ne_bytes}
use one_true_pairing.Wlproto.Output.{tokenize_incoming_arg_type}
use one_true_pairing.Totp.Hotp.{Algorithm}
use one_true_pairing.DbusUtils.{wait_for_object}
use one_true_pairing.WhaleLand.Error.{IsObjectId, display, Result, ok, err, panic, hang, ◌>>=◌}
use one_true_pairing.WhaleLand.Packet.{Packet, serialize}
use one_true_pairing.WhaleLand.Connection.Environment.{
  runtime_dir_var, wayland_display_var, runtime_dir, push, connected, display_or_default,
  new_from_env,
}
use one_true_pairing.WhaleLand.Protocol.{new_id}
use one_true_pairing.WhaleLand.Protocol.RoundTrip.{wire, try_into_packet_lem}
use one_true_pairing.WhaleLand.Protocol.Wayland.{wl_display_request_get_registry}
use one_true_pairing.Clipboard.State.{Pipe, WaylandData, Client, send_packet, request}
use one_true_pairing.Clipboard.State
use one_true_pairing.Clipboard.Requests.{next_id_lem, request_lem}
use one_true_pairing.Clipboard.MainLoop.{register_icon}
use one_true_pairing.Clipboard.Invariant.{IsConsistent}
use one_true_pairing.Secrets.Crypto.{Primitives, dh_new}
use one_true_pairing.Secrets.Session.{get_secrets}
use one_true_pairing.Secrets.Session
use one_true_pairing.Secrets.Session.Opening.{new-Opened}
use one_true_pairing.Menu.Click
use one_true_pairing.Program.{
  Environment, Program, ◌>>=?◌, require, waited, expect_ok, expect_client, is_zero, fresh_client,
  get_registry, start_client, start,
}
use one_true_pairing.Program.Sound.History.{IsSound}

-- A chain of `expect` that came to its end.
>>=?-some {ℓ κ} :
    {A : Type ℓ} {B : Type κ} (m : Option A) (f : A → Option B) {b : B}
    → (m >>=? f) ≡ some b
    → (a : A) × (m ≡ some a) × (f a ≡ some b)
>>=?-some (some a) f h = (a, refl, h)
>>=?-some none f h = absurd (ground (arith, h))

new_from_env-first :
    (var_os : Bytes → Option Bytes) (connect : Bytes → Option ℕ) (n : ℕ)
    → expect_ok (new_from_env var_os connect) ≡ some n
    → 2 ≡ n
unfolding new_from_env
new_from_env-first var_os connect n h = by_dir (var_os runtime_dir_var) h
  where
    by_error : (e : Option ℕ) → expect_ok (connected e) ≡ some n → 2 ≡ n
    by_error none h = some-injective 2 n h
    by_error (some e) h = absurd (ground (arith, h))

    by_dir :
        (dir : Option Bytes)
        → expect_ok (
            runtime_dir dir >>= λ d.
            connected (connect (push d (display_or_default (var_os wayland_display_var)))))
          ≡ some n
        → 2 ≡ n
    by_dir none h = absurd (ground (arith, h))
    by_dir (some dir) h =
        by_error (connect (push dir (display_or_default (var_os wayland_display_var)))) h

module _ (en : Endian) (pipes : ℕ → Pipe) where
  -- A socket that takes no packets, as a panic.
  send_packet-closed :
      (p : Packet) (c : Client) → c.connected ≡ false → send_packet en p c ≡ (panic, c)
  unfolding send_packet
  send_packet-closed p c e = by_bytes (serialize en p) refl
    where
      by_bytes : (r : Result Bytes) → serialize en p ≡ r → send_packet en p c ≡ (panic, c)
      by_bytes (ok bs) s = rw (s, send_packet) (rw e refl)
      by_bytes (err x) s = rw (s, send_packet) refl
      by_bytes panic s = rw (s, send_packet) refl
      by_bytes hang s = rw (s, send_packet) refl

  -- The request for the registry, with the ID 2.
  abbrev pub registry_request : Packet
  registry_request = wire en 1 (new_id 2 ∷ []) display

  -- The client that has asked for the registry.
  abbrev asked : Client
  asked = record (fresh_client pipes true 3) {
    data_of = record State.new { registry_id = some 2 };
    sent = registry_request ∷ [];
  }

  two-IsObjectId : IsObjectId 2
  two-IsObjectId = (omega arith, omega arith)

  get_registry-open : get_registry en (fresh_client pipes true 2) ≡ (ok tt, asked)
  unfolding get_registry tokenize_incoming_arg_type
  get_registry-open = rw (next_id_lem (fresh_client pipes true 2) two-IsObjectId) (
      rw
        (request_lem en wl_display_request_get_registry (new_id 2 ∷ []) display
          (record (fresh_client pipes true 2) { next_object_id = 3 }) (two-IsObjectId, tt)
          (omega (arith, length-append (to_ne_bytes en 2) [], length-to_ne_bytes en 2)) refl)
        refl)

  get_registry-closed : expect_client (get_registry en (fresh_client pipes false 2)) ≡ none
  unfolding get_registry request tokenize_incoming_arg_type
  get_registry-closed = rw (next_id_lem (fresh_client pipes false 2) two-IsObjectId) (
      rw
        (try_into_packet_lem en 1 wl_display_request_get_registry.fields (new_id 2 ∷ []) display
          (two-IsObjectId, tt))
        (rw
          (send_packet-closed registry_request
            (record (fresh_client pipes false 2) { next_object_id = 3 }) refl)
          refl))

  get_registry-asked :
      (takes_packets : Bool) (c : Client)
      → expect_client (get_registry en (fresh_client pipes takes_packets 2)) ≡ some c
      → asked ≡ c
  get_registry-asked true c h = some-injective asked c (rw get_registry-open at h)
  get_registry-asked false c h =
      let q : none ≡ some c = rw get_registry-closed at h in absurd (ground (arith, q))

  -- The client when the loop begins.
  abbrev pub started : Client
  started = record asked { registrations = 1 }

  registered-started :
      (registers : Bool) (c : Client)
      → expect_client (register_icon registers asked) ≡ some c
      → started ≡ c
  registered-started true c h = some-injective started c h
  registered-started false c h = absurd (ground (arith, h))

module _ (en : Endian) where
  start_client-started :
      (env : Environment) (c : Client)
      → start_client en env ≡ some c
      → (started en env.pipes ≡ c) × (env.protocol_version ≡ some (pos 0))
  unfolding start_client
  start_client-started env c h =
      let (n, e1, h1) = >>=?-some (expect_ok (new_from_env env.var_os env.connect)) _ h in
      let (client, e2, h2) = >>=?-some (expect_client (get_registry en _)) _ h1 in
      let watcher = codes "org.kde.StatusNotifierWatcher" in
      let (_, _, h3) =
        >>=?-some (waited (wait_for_object watcher env.watcher_owner env.watcher_signals)) _ h2 in
      let (_, _, h4) = >>=?-some (require env.icon_host) _ h3 in
      let (version, e5, h5) = >>=?-some env.protocol_version _ h4 in
      let (_, e6, h6) = >>=?-some (require (is_zero version)) _ h5 in
      let (registered, e7, h7) =
        >>=?-some (expect_client (register_icon env.registers client)) _ h6 in
      let (_, _, h8) = >>=?-some (require env.listens) _ h7 in
      let first = new_from_env-first env.var_os env.connect n e1 in
      let q = get_registry-asked en env.pipes env.takes_packets client (
        subst
          (λ k.
            expect_client (get_registry en (fresh_client env.pipes env.takes_packets k))
            ≡ some client)
          (sym first) e2) in
      (
        registered-started en env.pipes env.registers registered (
              subst (λ a. expect_client (register_icon env.registers a) ≡ some registered) (sym q)
                e7)
            ∙ some-injective registered c h8,
        e5 ∙ ap some (zero_version version e6),
      )
    where
      zero_version : (v : ℤ) → require (is_zero v) ≡ some tt → v ≡ pos 0
      zero_version (pos k) e = ap pos (ground (arith, e))
      zero_version (negsuc k) e = absurd (ground (arith, e))

-- The program when the loop begins: the menu has the names of the secrets, and nothing has been
-- sent or received yet.
pub record IsStarted (primitives : Primitives) (en : Endian) (env : Environment) (p : Program)
    : Type 0 where
  pub named : get_secrets primitives env.service p.session ≡ some p.menu.secret_name_to_path
  pub menu : p.menu ≡ Click.new p.menu.secret_name_to_path
  pub client : p.client ≡ started en env.pipes
  pub version : env.protocol_version ≡ some (pos 0)
  pub sound : IsSound en p.client [] p

module _ (primitives : Primitives) (hmac : Algorithm → Bytes → Bytes → Bytes) (en : Endian) where
  -- A start-up that succeeds leaves a program that is sound: a connected session, the menu with
  -- the names of its secrets, and a client that has sent exactly the request for the registry,
  -- with the ID 2 for it, and has registered the icon once, at an icon host of the protocol
  -- version 0.
  pub start-IsStarted :
      (collection : Bytes) (env : Environment) (p : Program)
      → start primitives hmac en collection env ≡ some p
      → IsStarted primitives en env p
  unfolding start Click.new
  start-IsStarted collection env p h =
      let secrets = codes "org.freedesktop.secrets" in
      let (_, _, h1) =
        >>=?-some (waited (wait_for_object secrets env.secrets_owner env.secrets_signals)) _ h in
      let (dh_algorithm, _, h2) = >>=?-some (dh_new primitives env.rands) _ h1 in
      let (session, e3, h3) =
        >>=?-some (Session.new primitives env.service dh_algorithm collection) _ h2 in
      let (names, e4, h4) = >>=?-some (get_secrets primitives env.service session) _ h3 in
      let (_, _, h5) = >>=?-some (require env.serves_menu) _ h4 in
      let (_, _, h6) = >>=?-some (require env.serves_icon) _ h5 in
      let (_, _, h7) = >>=?-some env.unique_name _ h6 in
      let (client, e8, h8) = >>=?-some (start_client en env) _ h7 in
      let (e, version) = start_client-started en env client e8 in
      subst (IsStarted primitives en env) (some-injective _ p h8) (record {
        named = e4;
        menu = refl;
        client = sym e;
        version = version;
        sound = record {
          consistent = subst (λ c. IsConsistent c.data_of) e (record { device = tt; source = tt });
          connected = (new-Opened primitives env.service dh_algorithm collection session e3).0;
          events = [];
          handled = refl;
          outside = refl;
          pending = [];
          in_order = refl;
          counted = refl;
          no_exit = tt;
        };
      })
