-- ===== src/Tests/Clipboard.antt =====
-- The clipboard of main.rs at a concrete state.
use one_true_pairing.Common.{ℕ, ◌≡◌, refl, true, Option, none, some, [], arith}
use one_true_pairing.Common.Bytes.{Bytes, little, codes, is_utf8}
use one_true_pairing.WhaleLand.Error.{ok}
use one_true_pairing.WhaleLand.Packet.{contains_nul}
use one_true_pairing.WhaleLand.Protocol.Encoding.{IsText}
use one_true_pairing.Clipboard.State.{WaylandData, Pipe, Client}
use one_true_pairing.Clipboard.Copy.{copy_dispatch, clear_dispatch}
use one_true_pairing.Clipboard.Publish.{
  after_publish, copy_dispatch-published, destroys, clear_dispatch-destroys,
}

-- The registry is 2, the seat 3, the manager 4 and the device 5; the source is `source`.
abbrev pub data_with : Option Bytes → Option ℕ → WaylandData
data_with content source = record {
  registry_id = some 2;
  seat_id = some 3;
  clipboard_manager_id = some 4;
  clipboard_device_id = some 5;
  clipboard_data = content;
  clipboard_source_id = source;
  incoming_offer_id = none;
}

abbrev pub working : Pipe
working = record { wraps = true; takes = true; flushes = true; closes = true }

abbrev pub client_with : Option Bytes → Option ℕ → Client
client_with content source = record {
  data_of = data_with content source;
  next_object_id = 6;
  connected = true;
  sent = [];
  written = [];
  closed = [];
  registrations = 0;
  pipes = λ n. working;
}

abbrev pub idle : Client
idle = client_with none none

abbrev owning : Client
owning = client_with (some (codes "123456")) (some 6)

copy_dispatch-published_example :
    copy_dispatch little (codes "123456") idle
    ≡ (ok tt, after_publish little 4 5 (client_with (some (codes "123456")) none))
copy_dispatch-published_example =
    copy_dispatch-published little (codes "123456") idle 4 5 refl (omega arith, omega arith) refl
      refl refl

clear_dispatch-destroys_example :
    clear_dispatch little owning
    ≡ (ok tt, record (client_with none none) { sent = destroys little (some 6) })
clear_dispatch-destroys_example = clear_dispatch-destroys little owning refl

pub utf8_string-IsText : IsText (codes "UTF8_STRING")
unfolding contains_nul is_utf8
utf8_string-IsText = record { short = omega arith; no_nul = refl; utf8 = refl }
