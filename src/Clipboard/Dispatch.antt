-- ===== src/Clipboard/Dispatch.antt =====
-- one-true-pairing/src/main.rs: `wayland_dispatch` and what it calls.
use one_true_pairing.Common.{ℕ, Option, none, some, List, [], ◌∷◌, ◌==◌, if◌then◌else◌}
use one_true_pairing.Common.Bytes.{Bytes, Endian, codes}
use one_true_pairing.WhaleLand.Error.{display, ObjectId, Result, ok, panic}
use one_true_pairing.WhaleLand.Exec.{Exec, pure, lift, ◌>>=◌, ◌>>◌}
use one_true_pairing.WhaleLand.Packet.{Packet, RawFd}
use one_true_pairing.WhaleLand.Protocol.{
  Value, uint, string, object, new_id, new_object, fd, try_into_packet,
}
use one_true_pairing.WhaleLand.Protocol.ExtDataControl.{
  manager_request_get_data_device, device_event_data_offer, device_event_selection,
  device_event_finished, device_event_primary_selection, source_event_send, source_event_cancelled,
  offer_event_offer,
}
use one_true_pairing.WhaleLand.Protocol.Wayland.{
  wl_display_event_error, wl_registry_request_bind, wl_registry_event_global,
  wl_seat_event_capabilities, wl_seat_event_name,
}
use one_true_pairing.Totp.Url.{bytes_eq}
use one_true_pairing.Clipboard.State.{
  WaylandData, Client, plain_text_mime_types_sorted, contains, is_id, expect, get_data, put_data,
  get_and_increment_next_object_id, async_fd, write_all, flush, close, send_packet, request,
  arguments,
}

-- `wl_registry_v1_event_global_args`
pub record GlobalArgs : Type 0 where
  pub name : ℕ
  pub interface : Bytes
  pub version : ℕ

-- `field.unwrap()`
abbrev pub unwrap : {S A : Type 0} → Option A → Exec S A
unwrap none s = (panic, s)
unwrap (some a) s = (ok a, s)

-- The structure of the values, in the order of its fields; other lists do not occur.
abbrev pub global_args : List Value → Exec Client GlobalArgs
global_args (uint n ∷ string i ∷ uint v ∷ []) =
    pure (record { name = n; interface = i; version = v })
global_args _ = lift panic

module _ (en : Endian) where
  unfoldable pub global_event_args_to_bind_request_packet :
      GlobalArgs → ObjectId → ObjectId → Result Packet
  global_event_args_to_bind_request_packet args new_object_id registry_id = expect (
      try_into_packet en wl_registry_request_bind.opcode wl_registry_request_bind.fields
        (uint args.name
          ∷ new_object (record {
            object_id = new_object_id;
            interface = args.interface;
            interface_version = args.version;
          })
          ∷ [])
        registry_id)

  -- The request for a device, from the manager and the seat.
  unfoldable pub obtain_data_device : ObjectId → ObjectId → Exec Client (Unit {0})
  obtain_data_device clipboard_manager_id seat_id = do
    clipboard_device_id ← get_and_increment_next_object_id
    _ ←
        request en manager_request_get_data_device
          (new_id clipboard_device_id ∷ object (some seat_id) ∷ []) clipboard_manager_id
    data_of ← get_data
    put_data (record data_of { clipboard_device_id = some clipboard_device_id })

  abbrev pub when_ready : Option ObjectId → Option ObjectId → Exec Client (Unit {0})
  when_ready (some clipboard_manager_id) (some seat_id) =
      obtain_data_device clipboard_manager_id seat_id
  when_ready _ _ = pure tt

  unfoldable pub obtain_data_device_if_ready : Exec Client (Unit {0})
  obtain_data_device_if_ready = do
    data_of ← get_data
    when_ready data_of.clipboard_manager_id data_of.seat_id

  -- A new ID, and the `bind` request for it.
  unfoldable pub bind_global : GlobalArgs → Exec Client ObjectId
  bind_global args = do
    new_object_id ← get_and_increment_next_object_id
    data_of ← get_data
    registry_id ← unwrap data_of.registry_id
    gimme_packet ← lift (global_event_args_to_bind_request_packet args new_object_id registry_id)
    _ ← send_packet en gimme_packet
    pure new_object_id

  -- The arm of "wl_seat"; the seat so far decides.
  unfoldable pub seat_global : GlobalArgs → Option ObjectId → Exec Client (Unit {0})
  seat_global args (some dupe) = pure tt
  seat_global args none = do
    new_seat_id ← bind_global args
    data_of ← get_data
    _ ← put_data (record data_of { seat_id = some new_seat_id })
    obtain_data_device_if_ready

  -- The arm of "ext_data_control_manager_v1"
  unfoldable pub manager_global : GlobalArgs → Option ObjectId → Exec Client (Unit {0})
  manager_global args (some dupe) = pure tt
  manager_global args none = do
    new_clipboard_manager_id ← bind_global args
    data_of ← get_data
    _ ← put_data (record data_of { clipboard_manager_id = some new_clipboard_manager_id })
    obtain_data_device_if_ready

  -- `match &*global_args.interface`
  unfoldable pub interface_global : GlobalArgs → WaylandData → Exec Client (Unit {0})
  interface_global args data_of =
      if bytes_eq args.interface (codes "wl_seat")
      then seat_global args data_of.seat_id
      else if bytes_eq args.interface (codes "ext_data_control_manager_v1")
      then manager_global args data_of.clipboard_manager_id
      else pure tt

  unfoldable pub global_event : GlobalArgs → Exec Client (Unit {0})
  global_event args = do data_of ← get_data; interface_global args data_of

  -- What goes to the file descriptor of a `send` event.
  unfoldable pub write_content : Bytes → Option Bytes → RawFd → Exec Client (Unit {0})
  write_content mime_type none target = pure tt
  write_content mime_type (some clip_data) target =
      if contains plain_text_mime_types_sorted mime_type
      then (do _ ← async_fd; _ ← write_all target clip_data; flush)
      else pure tt

  unfoldable pub send_event : List Value → Exec Client (Unit {0})
  send_event (string mime_type ∷ fd target ∷ []) = do
    data_of ← get_data
    _ ← write_content mime_type data_of.clipboard_data target
    close target
  send_event _ = lift panic

  -- The arms of `wayland_dispatch`, one for each object. An event that is only logged must still
  -- have its arguments.
  unfoldable pub display_event : Packet → Exec Client (Unit {0})
  display_event packet =
      if packet.opcode == wl_display_event_error.opcode
      then (arguments en wl_display_event_error packet >> pure tt)
      else pure tt

  unfoldable pub registry_event : Packet → Exec Client (Unit {0})
  registry_event packet =
      if packet.opcode == wl_registry_event_global.opcode
      then (do
        vs ← arguments en wl_registry_event_global packet
        args ← global_args vs
        global_event args)
      else pure tt

  unfoldable pub source_event : Packet → Exec Client (Unit {0})
  source_event packet =
      if packet.opcode == source_event_send.opcode
      then (do vs ← arguments en source_event_send packet; send_event vs)
      else if packet.opcode == source_event_cancelled.opcode
      then (do
        data_of ← get_data
        put_data (record data_of { clipboard_data = none; clipboard_source_id = none }))
      else pure tt

  unfoldable pub seat_event : Packet → Exec Client (Unit {0})
  seat_event packet =
      if packet.opcode == wl_seat_event_capabilities.opcode
      then (arguments en wl_seat_event_capabilities packet >> pure tt)
      else if packet.opcode == wl_seat_event_name.opcode
      then (arguments en wl_seat_event_name packet >> pure tt)
      else pure tt

  unfoldable pub data_offer : List Value → Exec Client (Unit {0})
  data_offer (new_id offered ∷ []) = do
    data_of ← get_data
    put_data (record data_of { incoming_offer_id = some offered })
  data_offer _ = lift panic

  unfoldable pub device_event : Packet → Exec Client (Unit {0})
  device_event packet =
      if packet.opcode == device_event_data_offer.opcode
      then (do vs ← arguments en device_event_data_offer packet; data_offer vs)
      else if packet.opcode == device_event_selection.opcode
      then (arguments en device_event_selection packet >> pure tt)
      else if packet.opcode == device_event_finished.opcode
      then (arguments en device_event_finished packet >> pure tt)
      else if packet.opcode == device_event_primary_selection.opcode
      then (arguments en device_event_primary_selection packet >> pure tt)
      else pure tt

  unfoldable pub offer_event : Packet → Exec Client (Unit {0})
  offer_event packet =
      if packet.opcode == offer_event_offer.opcode
      then (arguments en offer_event_offer packet >> pure tt)
      else pure tt

  -- The object of the packet chooses the arm, in this order.
  unfoldable pub object_event : Packet → WaylandData → Exec Client (Unit {0})
  object_event packet data_of =
      if packet.object_id == display
      then display_event packet
      else if is_id packet.object_id data_of.registry_id
      then registry_event packet
      else if is_id packet.object_id data_of.clipboard_source_id
      then source_event packet
      else if is_id packet.object_id data_of.seat_id
      then seat_event packet
      else if is_id packet.object_id data_of.clipboard_device_id
      then device_event packet
      else if is_id packet.object_id data_of.clipboard_manager_id
      then pure tt
      else if is_id packet.object_id data_of.incoming_offer_id
      then offer_event packet
      else pure tt

  unfoldable pub wayland_dispatch : Packet → Exec Client (Unit {0})
  wayland_dispatch packet = do data_of ← get_data; object_event packet data_of
