-- ===== src/Program.antt =====
-- one-true-pairing/src/main.rs, `main`: how the program starts up, and how the calls of the bus and
-- the event loop interleave until it ends. What the outside answers is a parameter.
pub mod Sound
pub mod Starting
pub mod Paste
use one_true_pairing.Common.{
  ℕ, suc, Bool, true, false, Option, none, some, List, [], ◌∷◌, get_elem?, ◌==◌, if◌then◌else◌,
}
use one_true_pairing.Common.Int.{ℤ, pos, negsuc}
use one_true_pairing.Common.Bytes.{Bytes, Endian, codes}
use one_true_pairing.Totp.Hotp.{Algorithm}
use one_true_pairing.DbusUtils.{NameOwner, NewKid, Waited, returned, panicked, wait_for_object}
use one_true_pairing.WhaleLand.Error.{Error, ObjectId, display, Result, ok, err, panic, hang}
use one_true_pairing.WhaleLand.Exec.{Exec, pure, ◌>>=◌}
use one_true_pairing.WhaleLand.Packet.{Packet}
use one_true_pairing.WhaleLand.Connection.Environment.{new_from_env}
use one_true_pairing.WhaleLand.Protocol.{new_id}
use one_true_pairing.WhaleLand.Protocol.Wayland.{wl_display_request_get_registry}
use one_true_pairing.Clipboard.State.{
  Pipe, ClipboardMessage, WaylandData, Client, put_data, get_and_increment_next_object_id, request,
}
use one_true_pairing.Clipboard.State
use one_true_pairing.Clipboard.MainLoop.{
  Event, clipboard_message, new_icon_host, way_packet, way_packet_error, register_icon, round,
}
use one_true_pairing.Secrets.Crypto.{Primitives, dh_new}
use one_true_pairing.Secrets.Session.{
  Service, SecretSession, get_secrets, get_secret, drop_connection,
}
use one_true_pairing.Secrets.Session
use one_true_pairing.Menu.Click.{ContextMenu, MenuEvent, Clicked, event}
use one_true_pairing.Menu.Click

-- What the start-up meets: the names on the bus, the service of the secrets, random numbers,
-- whether the bus serves the menu and the icon, the name on the bus, the environment and its
-- socket, how the file descriptors behave to which the clipboard is written, and what the icon host
-- does.
pub record Environment : Type 0 where
  pub secrets_owner : NameOwner
  pub secrets_signals : List NewKid
  pub service : Service
  pub rands : List ℕ
  pub serves_menu : Bool
  pub serves_icon : Bool
  pub unique_name : Option Bytes
  pub var_os : Bytes → Option Bytes
  pub connect : Bytes → Option ℕ
  pub takes_packets : Bool
  pub pipes : ℕ → Pipe
  pub watcher_owner : NameOwner
  pub watcher_signals : List NewKid
  pub icon_host : Bool
  pub protocol_version : Option ℤ
  pub registers : Bool
  pub listens : Bool

-- The program after its start-up: the session, the menu, how many of the messages that the menu
-- sent have been received, and the client of the clipboard.
pub record Program : Type 0 where
  pub session : SecretSession
  pub menu : ContextMenu
  pub received : ℕ
  pub client : Client

-- `expect` and `assert_eq!` in the start-up: a panic is none.
infixl 5 ◌>>=?◌
abbrev pub ◌>>=?◌ {ℓ κ} : {A : Type ℓ} {B : Type κ} → Option A → (A → Option B) → Option B
none >>=? f = none
some a >>=? f = f a

abbrev pub require : Bool → Option (Unit {0})
require true = some tt
require false = none

abbrev pub waited : Waited → Option (Unit {0})
waited (returned new_kids) = some tt
waited panicked = none

abbrev pub expect_ok : {A : Type 0} → Result A → Option A
expect_ok (ok a) = some a
expect_ok _ = none

abbrev pub expect_client : {A : Type 0} → Result A × Client → Option Client
expect_client (ok a, c) = some c
expect_client _ = none

abbrev pub is_zero : ℤ → Bool
is_zero (pos n) = n == 0
is_zero (negsuc n) = false

-- The socket of a new connection, before anything is sent.
abbrev pub fresh_client : (ℕ → Pipe) → Bool → ℕ → Client
fresh_client pipes takes_packets next_object_id = record {
  data_of = State.new;
  next_object_id = next_object_id;
  connected = takes_packets;
  sent = [];
  written = [];
  closed = [];
  registrations = 0;
  pipes = pipes;
}

module _ (en : Endian) where
  -- The request for the registry, and its ID in the data. The source makes the data later, when
  -- nothing has used it yet.
  unfoldable pub get_registry : Exec Client (Unit {0})
  get_registry = do
    registry_id ← get_and_increment_next_object_id
    _ ← request en wl_display_request_get_registry (new_id registry_id ∷ []) display
    put_data (record State.new { registry_id = some registry_id })

  -- From the connection to Wayland to the first round of the loop.
  unfoldable pub start_client : Environment → Option Client
  start_client env = expect_ok (new_from_env env.var_os env.connect) >>=? λ next_object_id.
      expect_client (get_registry (fresh_client env.pipes env.takes_packets next_object_id))
      >>=? λ client.
          waited (
            wait_for_object (codes "org.kde.StatusNotifierWatcher") env.watcher_owner
              env.watcher_signals)
          >>=? λ _. require env.icon_host >>=? λ _. env.protocol_version >>=? λ proto_version.
              require (is_zero proto_version) >>=? λ _.
              expect_client (register_icon env.registers client) >>=? λ registered.
              require env.listens >>=? λ _. some registered

module _ (primitives : Primitives) (hmac : Algorithm → Bytes → Bytes → Bytes) (en : Endian) where
  -- From the connection to the session bus on. None is a panic, or a wait that is not over.
  unfoldable pub start : Bytes → Environment → Option Program
  start collection env =
      waited
        (wait_for_object (codes "org.freedesktop.secrets") env.secrets_owner env.secrets_signals)
      >>=? λ _. dh_new primitives env.rands >>=? λ dh_algorithm.
          Session.new primitives env.service dh_algorithm collection >>=? λ session.
          get_secrets primitives env.service session >>=? λ secret_name_to_path.
          require env.serves_menu >>=? λ _. require env.serves_icon >>=? λ _.
          env.unique_name >>=? λ dbus_name. start_client en env >>=? λ client. some record {
            session = session;
            menu = Click.new secret_name_to_path;
            received = 0;
            client = client;
          }

-- What happens next: the icon host reports an event of the menu, with what the service answers
-- then and the time; or the event loop gets a message of the menu, if there is one, or another
-- event.
pub data Step : Type 0 where
  menu_event : Service → Option ℕ → ℤ → MenuEvent → Step
  message : Step
  icon_host_registered : Bool → Step
  packet : Packet → Step
  packet_error : Error → Step

-- How the program stands: running, at its end, or after a panic. `hanging` is a loop without end.
pub data Outcome : Type 0 where
  running : Program → Outcome
  ended : Program → Outcome
  crashed : Outcome
  hanging : Outcome

-- A round of the loop: behind it the connection of the session is dropped.
unfoldable pub after_round : Program → Result Bool × Client → Outcome
after_round p (ok true, c) = running (record p { client = c })
after_round p (ok false, c) = ended (record p { client = c; session = drop_connection p.session })
after_round p (err e, c) = crashed
after_round p (panic, c) = crashed
after_round p (hang, c) = hanging

unfoldable pub after_event : Program → Clicked → Outcome
after_event p (Clicked.returned menu) = running (record p { menu = menu })
after_event p Clicked.panicked = crashed

module _ (primitives : Primitives) (hmac : Algorithm → Bytes → Bytes → Bytes) (en : Endian) where
  -- `main` keeps a sender of its own, so that the channel is never closed: without a message the
  -- loop waits.
  unfoldable pub receive : Option ClipboardMessage → Program → Outcome
  receive none p = running p
  receive (some m) p =
      after_round (record p { received = suc p.received })
        (round en (clipboard_message (some m)) p.client)

  unfoldable pub step : Step → Program → Outcome
  step (menu_event service clock id event_id) p = after_event p (
      event (get_secrets primitives service p.session) (get_secret primitives service p.session)
        hmac clock id event_id p.menu)
  step message p = receive (get_elem? p.menu.sent p.received) p
  step (icon_host_registered works) p = after_round p (round en (new_icon_host works) p.client)
  step (packet way_packet_of) p = after_round p (round en (way_packet way_packet_of) p.client)
  step (packet_error e) p = after_round p (round en (way_packet_error e) p.client)

  -- What comes after the end is not looked at.
  unfoldable pub run : List Step → Program → Outcome
  run [] p = running p
  run (s ∷ steps) p = elim (step s p) [
    | running p' ↦ run steps p'
    | ended p' ↦ ended p'
    | crashed ↦ crashed
    | hanging ↦ hanging
  ]
