-- ===== src/WhaleLand/Protocol/Proxy.antt =====
-- The generated request proxies: `send_` and the name of a request.
pub mod Delivery
use one_true_pairing.Common.{ℕ, List}
use one_true_pairing.Common.Bytes.{Endian}
use one_true_pairing.WhaleLand.Error.{ObjectId}
use one_true_pairing.WhaleLand.Exec.{Exec, lift, ◌>>=◌}
use one_true_pairing.WhaleLand.Packet.{new}
use one_true_pairing.WhaleLand.Socket.{Outgoing}
use one_true_pairing.WhaleLand.Connection.{send_packet}
use one_true_pairing.WhaleLand.Protocol.{Value, Message, field_writes}

-- `Packet::new`, a push for each argument, and `send_packet`.
unfoldable pub send_request :
    Endian → ℕ → Message → List Value → ObjectId → Exec Outgoing (Unit {0})
send_request en fuel m vs object_id = do
  packet ← lift (field_writes en m.fields vs (new object_id m.opcode))
  send_packet en fuel packet
