-- ===== src/Tests/Connection.antt =====
-- The Wayland connection at concrete inputs.
use one_true_pairing.Common.{ℕ, ◌^◌, ◌<◌, ◌≡◌, refl, [], ◌∷◌, arith, All, if◌then◌else◌}
use one_true_pairing.Common.Bytes.{Bytes, little, codes, to_ne_bytes}
use one_true_pairing.WhaleLand.Error.{ObjectId, IsObjectId, missing_env_var, ok, err, hang}
use one_true_pairing.WhaleLand.Packet.{Packet, serialize}
use one_true_pairing.WhaleLand.Socket.{would_block, accepts, Outgoing}
use one_true_pairing.WhaleLand.Connection.{recv_loop, send_packet, next_object_id_loop}
use one_true_pairing.WhaleLand.Connection.Closed.{recv_loop_closed}
use one_true_pairing.WhaleLand.Connection.Ids.{next_object_id_loop-IsObjectId}
use one_true_pairing.WhaleLand.Connection.Send.{IsAccepting}
use one_true_pairing.Common.{List, Option, some, none}
use one_true_pairing.Totp.Url.{bytes_eq}
use one_true_pairing.WhaleLand.Connection.Environment.{
  runtime_dir_var, wayland_display_var, new_from_env,
}
use one_true_pairing.WhaleLand.Socket.{Arrival, arrived, send, send_on, send_with_fds}
use one_true_pairing.WhaleLand.Connection.{send_loop, recv_packet}
use one_true_pairing.WhaleLand.Connection.Receive.{content, first_fds, IsFlowing}
use one_true_pairing.WhaleLand.Connection.Cancelled.{recv_header, recv_packet-cancelled}
use one_true_pairing.WhaleLand.Connection.Transport.{recv_packet-send_packet}

abbrev sync : Packet
sync = record { object_id = 1; opcode = 0; payload = 3 ∷ 0 ∷ 0 ∷ 0 ∷ []; fds = 8 ∷ [] }

abbrev sync_bytes : Bytes
sync_bytes = 1 ∷ 0 ∷ 0 ∷ 0 ∷ 0 ∷ 0 ∷ 12 ∷ 0 ∷ 3 ∷ 0 ∷ 0 ∷ 0 ∷ []

serialize-sync : serialize little sync ≡ ok sync_bytes
unfolding serialize to_ne_bytes
serialize-sync = refl

abbrev slow : Outgoing
slow = record {
  answers =
      would_block
      ∷ accepts 1
      ∷ accepts 1
      ∷ accepts 5
      ∷ accepts 1
      ∷ accepts 1
      ∷ accepts 1
      ∷ accepts 1
      ∷ accepts 1
      ∷ would_block
      ∷ accepts 1
      ∷ accepts 1
      ∷ accepts 1
      ∷ accepts 1
      ∷ accepts 1
      ∷ [];
  written = [];
}

slow-IsAccepting : All IsAccepting slow.answers
slow-IsAccepting = ground arith

recv_loop_closed_example : recv_loop 1000 8 (1 ∷ 0 ∷ []) [] ≡ (hang, [])
recv_loop_closed_example = recv_loop_closed 1000 8 (1 ∷ 0 ∷ []) (omega arith)

next_object_id_loop-IsObjectId_example :
    (oid : ObjectId) × (next : ℕ) × (next_object_id_loop 2 0 ≡ (ok oid, next))
    × IsObjectId oid
    × (next < 2 ^ 32)
next_object_id_loop-IsObjectId_example = next_object_id_loop-IsObjectId 0 0 (omega arith)

-- The socket after all of `sync`.
abbrev sent_sync : Outgoing
sent_sync = record {
  answers = would_block ∷ accepts 1 ∷ accepts 1 ∷ accepts 1 ∷ accepts 1 ∷ accepts 1 ∷ [];
  written =
      (0 ∷ [], [])
      ∷ (0 ∷ [], [])
      ∷ (0 ∷ [], [])
      ∷ (3 ∷ [], [])
      ∷ (0 ∷ [], [])
      ∷ (0 ∷ 0 ∷ 0 ∷ 0 ∷ 12 ∷ [], [])
      ∷ (0 ∷ [], [])
      ∷ (1 ∷ [], 8 ∷ [])
      ∷ [];
}

send-sync : send_packet little 12 sync slow ≡ (ok tt, sent_sync)
unfolding send_packet send_loop send_with_fds send send_on serialize to_ne_bytes
send-sync = refl

abbrev arriving : List Arrival
arriving =
    arrived (1 ∷ 0 ∷ []) (8 ∷ []) ∷ arrived (0 ∷ 0 ∷ 0 ∷ 0 ∷ 12 ∷ 0 ∷ 3 ∷ 0 ∷ 0 ∷ 0 ∷ []) [] ∷ []

arriving-IsFlowing : All IsFlowing arriving
arriving-IsFlowing = ground arith

recv_packet-send_packet_example :
    (s' : List Arrival) × (recv_packet little 12 arriving ≡ (ok sync, s')) × (content s' ≡ [])
recv_packet-send_packet_example =
    recv_packet-send_packet little sync sync_bytes 12 slow sent_sync arriving
      (omega arith, omega arith) (omega arith) serialize-sync (omega arith) slow-IsAccepting
      (omega arith) refl send-sync arriving-IsFlowing refl refl

-- The variables of a session: the runtime directory, and a display, perhaps.
abbrev variables : Option Bytes → Bytes → Option Bytes
variables wayland_display name =
    if bytes_eq name runtime_dir_var
    then some (codes "/run/user/1000")
    else if bytes_eq name wayland_display_var
    then wayland_display
    else none

-- Only this path has a compositor; any other is ENOENT.
abbrev listens_at : Bytes → Bytes → Option ℕ
listens_at path other = if bytes_eq path other then none else some 2

default_display :
    new_from_env (variables none) (listens_at (codes "/run/user/1000/wayland-0")) ≡ ok 2
unfolding new_from_env bytes_eq
default_display = refl

absolute_display :
    new_from_env (variables (some (codes "/tmp/way"))) (listens_at (codes "/tmp/way")) ≡ ok 2
unfolding new_from_env bytes_eq
absolute_display = refl

no_runtime_dir :
    new_from_env (λ name. none) (listens_at []) ≡ err (missing_env_var (codes "XDG_RUNTIME_DIR"))
unfolding new_from_env
no_runtime_dir = refl

-- A packet of 20 bytes, whose payload spells `sync`, arrives with a pause after the header.
abbrev interrupted : List Arrival
interrupted =
    arrived (2 ∷ 0 ∷ 0 ∷ 0 ∷ 0 ∷ 0 ∷ 20 ∷ 0 ∷ []) []
    ∷ would_block
    ∷ arrived sync_bytes (8 ∷ [])
    ∷ []

recv_packet-cancelled_example :
    (s1 s2 : List Arrival) × (recv_header 12 interrupted
      ≡ (ok (2 ∷ 0 ∷ 0 ∷ 0 ∷ 0 ∷ 0 ∷ 20 ∷ 0 ∷ [], []), s1))
    × (recv_packet little 12 s1 ≡ (ok (record sync { opcode = 0; fds = first_fds s1 }), s2))
    × (content s2 ≡ [])
recv_packet-cancelled_example =
    recv_packet-cancelled little sync (2 ∷ 0 ∷ 0 ∷ 0 ∷ 0 ∷ 0 ∷ 20 ∷ 0 ∷ []) sync_bytes [] 12
      interrupted (omega arith, omega arith) (omega arith) serialize-sync (ground arith) refl refl
      (omega arith) (omega arith)
