-- ===== src/Clipboard/Frames.antt =====
-- main.rs: what a call of a handler leaves of the data as it was.
use one_true_pairing.Common.{◌++◌, ◌≡◌, Bool, true, false, List, [], ◌∷◌, if◌then◌else◌}
use one_true_pairing.Common.Bytes.{Bytes, Endian}
use one_true_pairing.WhaleLand.Error.{ObjectId, Result, ok, err, panic, hang}
use one_true_pairing.WhaleLand.Exec.{lift}
use one_true_pairing.WhaleLand.Exec.After.{After, After-bind}
use one_true_pairing.WhaleLand.Packet.{Packet, serialize}
use one_true_pairing.WhaleLand.Protocol.{Value, Message, try_from_packet, try_into_packet}
use one_true_pairing.Clipboard.State.{
  WaylandData, Client, expect, get_and_increment_next_object_id, get_data, put_data, send_packet,
  request, arguments,
}

-- The data afterwards is `d`.
abbrev pub Keeps : {A : Type 0} → WaylandData → A → Client → Type 0
Keeps d a c = c.data_of ≡ d

module _ {d : WaylandData} where
  pub lift-Keeps :
      {A : Type 0} (r : Result A) (c : Client) → c.data_of ≡ d → After (Keeps d) (lift r c)
  lift-Keeps (ok a) c e = record { holds = e }
  lift-Keeps (err x) c e = record { holds = tt }
  lift-Keeps panic c e = record { holds = tt }
  lift-Keeps hang c e = record { holds = tt }

  pub next_id-Keeps :
      (c : Client) → c.data_of ≡ d → After (Keeps d) (get_and_increment_next_object_id c)
  unfolding get_and_increment_next_object_id
  next_id-Keeps c e = lift-Keeps _ _ e

  -- The data is read.
  pub get_data-Keeps :
      (c : Client) → c.data_of ≡ d → After (λ a c'. (a ≡ d) × (c'.data_of ≡ d)) (get_data c)
  get_data-Keeps c e = record { holds = (e, e) }

  pub put_data_lem : (d' : WaylandData) (c : Client) → d' ≡ d → After (Keeps d) (put_data d' c)
  put_data_lem d' c e = record { holds = e }

  module _ (en : Endian) where
    pub send_packet-Keeps :
        (p : Packet) (c : Client) → c.data_of ≡ d → After (Keeps d) (send_packet en p c)
    unfolding send_packet
    send_packet-Keeps p c e = answered (serialize en p) c.connected
      where
        answered :
            (r : Result Bytes) (connected : Bool)
            → After (Keeps {A = Unit {0}} d) (elim r [
              | ok bs ↦
                  if connected then (ok tt, record c { sent = c.sent ++ (p ∷ []) }) else (panic, c)
              | _ ↦ (panic, c)
            ])
        answered (ok bs) true = record { holds = e }
        answered (ok bs) false = record { holds = tt }
        answered (err x) connected = record { holds = tt }
        answered panic connected = record { holds = tt }
        answered hang connected = record { holds = tt }

    pub request-Keeps :
        (m : Message) (vs : List Value) (object : ObjectId) (c : Client)
        → c.data_of ≡ d
        → After (Keeps d) (request en m vs object c)
    unfolding request
    request-Keeps m vs object c e =
        After-bind (lift-Keeps (expect (try_into_packet en m.opcode m.fields vs object)) c e)
          (λ p c' e'. send_packet-Keeps p c' e')

    pub arguments-Keeps :
        (m : Message) (p : Packet) (c : Client)
        → c.data_of ≡ d
        → After (Keeps d) (arguments en m p c)
    arguments-Keeps m p c e = lift-Keeps (expect (try_from_packet en m.fields p)) c e
