-- ===== src/WhaleLand/Connection/Handlers.antt =====
-- connection.rs: the map of event handlers, and what `dispatch` does with it.
use one_true_pairing.Common.{◌≡◌, none, some, List, [], ◌∷◌, arith, ◌==◌, if◌then◌else◌}
use one_true_pairing.WhaleLand.Error.{ObjectId, no_event_handler, Result, err}
use one_true_pairing.WhaleLand.Packet.{Packet}
use one_true_pairing.WhaleLand.Connection.{find_handler, drop_handler, register_handler, dispatch}

module _ {H : Type 0} where
  find_handler-drop_handler :
      (m : List (ObjectId × H)) (k j : ObjectId)
      → find_handler (drop_handler m k) j ≡ (if k == j then none else find_handler m j)
  unfolding find_handler drop_handler
  find_handler-drop_handler [] k j = ground arith
  find_handler-drop_handler ((i, h) ∷ m) k j = ground (arith, find_handler-drop_handler m k j)

  find_handler-register_handler :
      (m : List (ObjectId × H)) (k j : ObjectId) (h : H)
      → find_handler (register_handler m k h) j ≡ (if k == j then some h else find_handler m j)
  unfolding find_handler register_handler
  find_handler-register_handler m k j h = ground (arith, find_handler-drop_handler m k j)

  -- After a registration, a packet for that object goes to the new handler, and a packet for any
  -- other object goes where it went before.
  pub dispatch-register_handler :
      (handle : H → Packet → Result (Unit {0})) (m : List (ObjectId × H)) (k : ObjectId) (h : H)
      (packet : Packet)
      → dispatch handle (register_handler m k h) packet
        ≡ (if k == packet.object_id then handle h packet else dispatch handle m packet)
  unfolding dispatch
  dispatch-register_handler handle m k h packet =
      rw (find_handler-register_handler m k packet.object_id h, dispatch) (ground arith)

  -- After a handler is dropped, a packet for that object is an error, and a packet for any other
  -- object goes where it went before.
  pub dispatch-drop_handler :
      (handle : H → Packet → Result (Unit {0})) (m : List (ObjectId × H)) (k : ObjectId)
      (packet : Packet)
      → dispatch handle (drop_handler m k) packet ≡ (
          if k == packet.object_id
          then err (no_event_handler packet.object_id)
          else dispatch handle m packet)
  unfolding dispatch
  dispatch-drop_handler handle m k packet =
      rw (find_handler-drop_handler m k packet.object_id, dispatch) (ground arith)
