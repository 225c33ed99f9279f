-- ===== src/Clipboard/MainLoop.antt =====
-- one-true-pairing/src/main.rs: the loop of `main` over what `tokio::select!` delivers.
use one_true_pairing.Common.{
  ◌+◌, Bool, true, false, Option, none, some, List, [], ◌∷◌, if◌then◌else◌,
}
use one_true_pairing.Common.Bytes.{Endian}
use one_true_pairing.WhaleLand.Error.{Error, ok, panic}
use one_true_pairing.WhaleLand.Exec.{Exec, pure, ◌>>=◌, ◌>>◌}
use one_true_pairing.WhaleLand.Packet.{Packet}
use one_true_pairing.Clipboard.State.{ClipboardMessage, copy, clear, exit, Client}
use one_true_pairing.Clipboard.Copy.{copy_dispatch, clear_dispatch}
use one_true_pairing.Clipboard.Dispatch.{wayland_dispatch}

-- What a branch of `tokio::select!` delivers: a message of the menu, or none when its sender is
-- gone; a new icon host, and whether it takes our icon; a packet, or the error of receiving it.
pub data Event : Type 0 where
  clipboard_message : Option ClipboardMessage → Event
  new_icon_host : Bool → Event
  way_packet : Packet → Event
  way_packet_error : Error → Event

-- How the loop stands after some events: ended, with the events that it did not look at, or
-- waiting for more.
pub data Ending : Type 0 where
  ended : List Event → Ending
  waiting : Ending

-- `register_status_notifier_item(..).await.expect(..)`
abbrev pub register_icon : Bool → Exec Client (Unit {0})
register_icon false c = (panic, c)
register_icon true c = (ok tt, record c { registrations = c.registrations + 1 })

module _ (en : Endian) where
  -- One round. The result says whether the loop goes on.
  unfoldable pub round : Event → Exec Client Bool
  round (clipboard_message none) = pure false
  round (clipboard_message (some exit)) = pure false
  round (clipboard_message (some (copy value))) = copy_dispatch en value >> pure true
  round (clipboard_message (some clear)) = clear_dispatch en >> pure true
  round (new_icon_host works) = register_icon works >> pure true
  round (way_packet packet) = wayland_dispatch en packet >> pure true
  round (way_packet_error e) = pure true

  unfoldable pub main_loop : List Event → Exec Client Ending
  main_loop [] = pure waiting
  main_loop (event ∷ events) = do
    go_on ← round event
    if go_on then main_loop events else pure (ended events)
