-- ===== src/Clipboard/State.antt =====
-- one-true-pairing/src/main.rs: the data that the event loop keeps, and what its handlers do to
-- the outside: packets to the compositor, bytes to file descriptors, closed file descriptors.
use one_true_pairing.Common.{
  ℕ, Bool, false, ◌||◌, Option, none, some, List, [], ◌∷◌, ◌++◌, ◌==◌, if◌then◌else◌, length,
}
use one_true_pairing.Common.Bytes.{Bytes, Endian, codes}
use one_true_pairing.WhaleLand.Error.{ObjectId, Result, ok, err, panic, hang}
use one_true_pairing.WhaleLand.Exec.{Exec, ◌>>=◌}
use one_true_pairing.WhaleLand.Packet.{Packet, RawFd, serialize}
use one_true_pairing.WhaleLand.Connection.{next_object_id_loop}
use one_true_pairing.WhaleLand.Protocol.{Value, Message, try_from_packet, try_into_packet}
use one_true_pairing.Totp.Url.{bytes_eq}

pub data ClipboardMessage : Type 0 where
  copy : Bytes → ClipboardMessage
  clear : ClipboardMessage
  exit : ClipboardMessage

pub record WaylandData : Type 0 where
  pub registry_id : Option ObjectId
  pub seat_id : Option ObjectId
  pub clipboard_manager_id : Option ObjectId
  pub clipboard_device_id : Option ObjectId
  pub clipboard_data : Option Bytes
  pub clipboard_source_id : Option ObjectId
  pub incoming_offer_id : Option ObjectId

-- `WaylandData::new`
abbrev pub new : WaylandData
new = record {
  registry_id = none;
  seat_id = none;
  clipboard_manager_id = none;
  clipboard_device_id = none;
  clipboard_data = none;
  clipboard_source_id = none;
  incoming_offer_id = none;
}

-- How the file descriptor of a `send` event behaves: whether it can be wrapped for asynchronous
-- writes, takes all the bytes, is flushed, and is closed without an error.
pub record Pipe : Type 0 where
  pub wraps : Bool
  pub takes : Bool
  pub flushes : Bool
  pub closes : Bool

-- The data, the counter of the connection, whether its socket still takes packets, what has been
-- done to the outside so far, in order, and how the file descriptor behaves of the `send` event that
-- comes after `n` others; `registrations` counts how often the icon was registered with an icon
-- host.
pub record Client : Type 0 where
  pub data_of : WaylandData
  pub next_object_id : ℕ
  pub connected : Bool
  pub sent : List Packet
  pub written : List (RawFd × Bytes)
  pub closed : List RawFd
  pub registrations : ℕ
  pub pipes : ℕ → Pipe

abbrev pub plain_text_mime_types_sorted : List Bytes
plain_text_mime_types_sorted =
    codes "STRING"
    ∷ codes "TEXT"
    ∷ codes "UTF8_STRING"
    ∷ codes "text/plain"
    ∷ codes "text/plain;charset=utf-8"
    ∷ []

-- `binary_search(..).is_ok()`: in a sorted list it finds what is there.
unfoldable pub contains : List Bytes → Bytes → Bool
contains [] m = false
contains (t ∷ ts) m = bytes_eq t m || contains ts m

-- `Some(id) == field`
abbrev pub is_id : ObjectId → Option ObjectId → Bool
is_id id none = false
is_id id (some other) = id == other

-- `.expect(..)`: an error is a panic.
abbrev pub expect {ℓ} : {A : Type ℓ} → Result A → Result A
expect (ok a) = ok a
expect (err e) = panic
expect panic = panic
expect hang = hang

abbrev pub expected {ℓ} : {S A : Type ℓ} → Result A → Exec S A
expected r s = (expect r, s)

abbrev pub get_data : Exec Client WaylandData
get_data c = (ok c.data_of, c)

abbrev pub put_data : WaylandData → Exec Client (Unit {0})
put_data d c = (ok tt, record c { data_of = d })

-- `conn.get_and_increment_next_object_id()`: two rounds of its loop are enough.
unfoldable pub get_and_increment_next_object_id : Exec Client ObjectId
get_and_increment_next_object_id c =
    let (r, n) = next_object_id_loop 2 c.next_object_id in (r, record c { next_object_id = n })

-- The file descriptor that is dealt with: one is closed for each event before.
abbrev pub pipe : Client → Pipe
pipe c = c.pipes (length c.closed)

-- `AsyncFd::try_from(fd).expect(..)`, `write_all(..).await.expect(..)` and
-- `flush().await.expect(..)`
unfoldable pub async_fd : Exec Client (Unit {0})
async_fd c = if (pipe c).wraps then (ok tt, c) else (panic, c)

unfoldable pub write_all : RawFd → Bytes → Exec Client (Unit {0})
write_all fd bs c =
    if (pipe c).takes
    then (ok tt, record c { written = c.written ++ ((fd, bs) ∷ []) })
    else (panic, c)

unfoldable pub flush : Exec Client (Unit {0})
flush c = if (pipe c).flushes then (ok tt, c) else (panic, c)

-- `close(fd)`, where -1 is a panic.
unfoldable pub close : RawFd → Exec Client (Unit {0})
close fd c =
    if (pipe c).closes then (ok tt, record c { closed = c.closed ++ (fd ∷ []) }) else (panic, c)

module _ (en : Endian) where
  -- `conn.send_packet(&packet).await.expect(..)`: a packet that is too long and a socket that has
  -- failed are panics.
  unfoldable pub send_packet : Packet → Exec Client (Unit {0})
  send_packet p c = elim (serialize en p) [
    | ok bs ↦ if c.connected then (ok tt, record c { sent = c.sent ++ (p ∷ []) }) else (panic, c)
    | _ ↦ (panic, c)
  ]

  -- `args.try_into_packet(object).expect(..)` and `send_packet` on it.
  unfoldable pub request : Message → List Value → ObjectId → Exec Client (Unit {0})
  request m vs object = do
    p ← expected (try_into_packet en m.opcode m.fields vs object)
    send_packet p

  -- `args::try_from_packet(&packet).expect(..)`
  abbrev pub arguments : Message → Packet → Exec Client (List Value)
  arguments m p = expected (try_from_packet en m.fields p)
