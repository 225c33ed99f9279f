-- ===== src/Tests/Program.antt =====
-- The whole program at a concrete environment.
use one_true_pairing.Common.{
  ℕ, suc, ◌++◌, ◌≡◌, refl, true, false, none, some, List, [], ◌∷◌, arith, length, if◌then◌else◌,
}
use one_true_pairing.Common.Int.{pos}
use one_true_pairing.Common.Bytes.{Bytes, little, codes}
use one_true_pairing.Totp.Hotp.{sha1, totp}
use one_true_pairing.Totp.Url.{bytes_eq}
use one_true_pairing.DbusUtils.{owner}
use one_true_pairing.WhaleLand.Protocol.{string, fd}
use one_true_pairing.WhaleLand.Protocol.RoundTrip.{wire}
use one_true_pairing.Clipboard.State.{exit, contains, plain_text_mime_types_sorted}
use one_true_pairing.Secrets.Session.{Service, SecretSession, get_secret, drop_connection}
use one_true_pairing.Secrets.Crypto.{decode_secret}
use one_true_pairing.Menu.Layout.{menu_exit_id, get_property, value}
use one_true_pairing.Menu.Click.{clicked, event, click}
use one_true_pairing.Clipboard.MainLoop.{round}
use one_true_pairing.Menu.Click.Format.{fixed_width}
use one_true_pairing.Menu.Click.Shown.{names_of}
use one_true_pairing.Program.{
  Environment, Program, Step, menu_event, message, packet, running, ended, receive, step,
  after_round, after_event, run, start, start_client, get_registry,
}
use one_true_pairing.Program.Sound.{run-Sound}
use one_true_pairing.Program.Sound.History.{IsSound, Sound}
use one_true_pairing.Program.Starting.{started, IsStarted, start-IsStarted}
use one_true_pairing.Program.Paste.{IsReady, IsWorking, run-pasted}
use one_true_pairing.Tests.Clipboard.{working, idle, utf8_string-IsText}
use one_true_pairing.Tests.Menu.{
  hmac, hmac-IsHmac, secret_url, secret_parameters, secret_url-parameters, secret_url-is_utf8,
  default_is_sha1, menu,
}
use one_true_pairing.Tests.Secrets.{primitives, service, plain_service, session}

-- A service whose items all hold one URL, in the clear.
abbrev url_service : Service
url_service = record service {
  item_secret = λ item path. some record { parameters = []; value = secret_url };
}

abbrev program : Program
program = record { session = session; menu = menu; received = 0; client = idle }

url-secret : get_secret primitives url_service session (codes "/b/2") ≡ some (some secret_url)
unfolding get_secret decode_secret
url-secret = refl

utf8_string-plain : contains plain_text_mime_types_sorted (codes "UTF8_STRING") ≡ true
unfolding contains bytes_eq
utf8_string-plain = refl

idle-IsReady : IsReady 4 5 idle
idle-IsReady = record {
  connected = refl;
  next_valid = (omega arith, omega arith);
  not_display = omega arith;
  not_registry = refl;
  no_source = refl;
  manager = refl;
  device = refl;
}

working-IsWorking : IsWorking working
working-IsWorking = record { wraps = refl; takes = refl; flushes = refl; closes = refl }

run-pasted_example :
    (code : ℕ) × (text : Bytes) × (p' : Program) × (get_property
        (names_of menu)
        (pos 2)
        (codes "label")
      ≡ some (value (codes "mail")))
    × (totp hmac sha1 (codes "fooba") 1000 30 8 ≡ some code)
    × (text ≡ fixed_width 8 code)
    × (run primitives hmac little
          (menu_event url_service (some 1000) (pos 2) clicked
            ∷ message
            ∷ packet (wire little 0 (string (codes "UTF8_STRING") ∷ fd 9 ∷ []) 6)
            ∷ [])
          program
        ≡ running p')
    × (p'.client.written ≡ (9, text) ∷ [])
    × (p'.client.closed ≡ 9 ∷ [])
run-pasted_example =
    run-pasted primitives {hmac = hmac} hmac-IsHmac little url_service 1000 1 program 4 5
      (codes "mail") (codes "/b/2") secret_url (codes "UTF8_STRING") 9 secret_parameters sha1
      (omega arith) refl url-secret secret_url-is_utf8 secret_url-parameters default_is_sha1 refl
      idle-IsReady utf8_string-IsText utf8_string-plain working-IsWorking

program-IsSound : IsSound little idle [] program
program-IsSound = record {
  consistent = record { device = tt; source = tt };
  connected = refl;
  events = [];
  handled = refl;
  outside = refl;
  pending = [];
  in_order = refl;
  counted = refl;
  no_exit = tt;
}

abbrev leaving : List Step
leaving =
    message ∷ menu_event url_service (some 1000) (pos menu_exit_id) clicked ∷ message ∷ message ∷ []

run-Sound_example : Sound little idle [] (run primitives hmac little leaving program)
run-Sound_example = run-Sound primitives hmac little idle leaving [] program program-IsSound

-- The click on "Exit" is the third step of it.
run-leaving :
    run primitives hmac little leaving program
    ≡ ended record {
      session = record session { connected = false };
      menu = record menu { sent = exit ∷ [] };
      received = 1;
      client = idle;
    }
unfolding run step receive after_round after_event round event click drop_connection
run-leaving = refl

-- A service that knows only the plain algorithm, with two items of one name.
abbrev environment : Environment
environment = record {
  secrets_owner = owner (codes ":1");
  secrets_signals = [];
  service = plain_service;
  rands = 12 ∷ [];
  serves_menu = true;
  serves_icon = true;
  unique_name = some (codes ":1.7");
  var_os = λ name. if bytes_eq name (codes "XDG_RUNTIME_DIR") then some (codes "/run") else none;
  connect = λ path. if bytes_eq path (codes "/run/wayland-0") then none else some 2;
  takes_packets = true;
  pipes = λ n. working;
  watcher_owner = owner (codes ":2");
  watcher_signals = [];
  icon_host = true;
  protocol_version = some (pos 0);
  registers = true;
  listens = true;
}

abbrev started_program : Program
started_program = record {
  session = session;
  menu = record {
    secret_name_to_path = (codes "bank", codes "/b/2") ∷ [];
    sent = [];
    menu_revision = 1;
    layouts_updated = [];
  };
  received = 0;
  client = started little (λ n. working);
}

starts : start primitives hmac little (codes "Login") environment ≡ some started_program
unfolding start start_client get_registry bytes_eq one_true_pairing.DbusUtils.wait_for_object
    one_true_pairing.Secrets.Crypto.dh_new one_true_pairing.Secrets.Dh.new
    one_true_pairing.Secrets.Dh.generate_private_key one_true_pairing.Secrets.Dh.draw
    one_true_pairing.Secrets.Session.new one_true_pairing.Secrets.Session.try_algorithms
    one_true_pairing.Secrets.Crypto.get_name one_true_pairing.Secrets.Crypto.set_session_output
    one_true_pairing.Secrets.Session.find_collection
    one_true_pairing.Secrets.Session.unlock_collection one_true_pairing.Secrets.Session.get_secrets
    one_true_pairing.WhaleLand.Connection.Environment.new_from_env
    one_true_pairing.Clipboard.State.get_and_increment_next_object_id
    one_true_pairing.Clipboard.State.request one_true_pairing.Clipboard.State.send_packet
    one_true_pairing.Common.Bytes.to_ne_bytes one_true_pairing.Secrets.Session.bytes_ltb
    one_true_pairing.Secrets.Session.insert one_true_pairing.Secrets.Session.name_items
    one_true_pairing.WhaleLand.Connection.next_object_id_loop
    one_true_pairing.WhaleLand.Error.object_id_new
    one_true_pairing.WhaleLand.Packet.push_new_id_known_interface
    one_true_pairing.WhaleLand.Packet.serialize one_true_pairing.WhaleLand.Protocol.call_write
    one_true_pairing.WhaleLand.Protocol.field_writes
    one_true_pairing.WhaleLand.Protocol.try_into_packet
    one_true_pairing.Wlproto.Output.tokenize_arg_type_write_func one_true_pairing.Menu.Click.new
starts = refl

start-IsStarted_example : IsStarted primitives little environment started_program
start-IsStarted_example =
    start-IsStarted primitives hmac little (codes "Login") environment started_program starts
