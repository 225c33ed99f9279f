-- ===== src/Program/Sound/History.antt =====
-- main.rs: what has come to the program so far, and what makes it sound and its end right.
use one_true_pairing.Common.{suc, ◌≡◌, true, false, some, List, [], ◌∷◌, ◌++◌, length, All}
use one_true_pairing.Common.Bytes.{Endian}
use one_true_pairing.WhaleLand.Error.{ok}
use one_true_pairing.Clipboard.State.{ClipboardMessage, exit, Client}
use one_true_pairing.Clipboard.MainLoop.{
  Event, clipboard_message, new_icon_host, way_packet, way_packet_error, round,
}
use one_true_pairing.Clipboard.Invariant.{IsConsistent}
use one_true_pairing.Program.{
  Program, Step, menu_event, message, icon_host_registered, packet, packet_error, Outcome, running,
  ended, crashed, hanging,
}

-- A message that the loop goes on after.
abbrev pub GoesOn : ClipboardMessage → Type 0
GoesOn exit = ⊥
GoesOn _ = Unit

-- The messages among some events, the last of which comes first, in the order that they came in.
abbrev pub messages_of : List Event → List ClipboardMessage
messages_of [] = []
messages_of (clipboard_message (some m) ∷ events) = messages_of events ++ (m ∷ [])
messages_of (_ ∷ events) = messages_of events

-- The other events among them, the last one first.
abbrev pub others_of : List Event → List Event
others_of [] = []
others_of (clipboard_message m ∷ events) = others_of events
others_of (new_icon_host works ∷ events) = new_icon_host works ∷ others_of events
others_of (way_packet p ∷ events) = way_packet p ∷ others_of events
others_of (way_packet_error e ∷ events) = way_packet_error e ∷ others_of events

-- The rounds of the loop for some events, the last of which comes first, make the client `c` of
-- `first`, and the loop goes on after each.
abbrev pub Handled : Endian → List Event → Client → Client → Type 0
Handled en [] first c = first ≡ c
Handled en (e ∷ events) first c =
    (before : Client) × Handled en events first before × (round en e before ≡ (ok true, c))

-- From the client `first` on, with `others` as the events so far that are no messages, the last one
-- first: the data of the clipboard is consistent, the session has its connection, and the client
-- is what the rounds of the loop have made of these events and of the messages received, which are
-- the first ones that the menu has sent, with no request to end among them.
pub record IsSound (en : Endian) (first : Client) (others : List Event) (p : Program) : Type 0 where
  pub consistent : IsConsistent p.client.data_of
  pub connected : p.session.connected ≡ true
  pub events : List Event
  pub handled : Handled en events first p.client
  pub outside : others_of events ≡ others
  pub pending : List ClipboardMessage
  pub in_order : p.menu.sent ≡ messages_of events ++ pending
  pub counted : p.received ≡ length (messages_of events)
  pub no_exit : All GoesOn (messages_of events)

-- The last message received was the first request to end, which the client was left by as the
-- rounds before had made it, and the session has lost its connection.
pub record IsDone (en : Endian) (first : Client) (p : Program) : Type 0 where
  pub consistent : IsConsistent p.client.data_of
  pub disconnected : p.session.connected ≡ false
  pub events : List Event
  pub handled : Handled en events first p.client
  pub pending : List ClipboardMessage
  pub in_order : p.menu.sent ≡ messages_of events ++ (exit ∷ pending)
  pub counted : p.received ≡ suc (length (messages_of events))
  pub no_exit : All GoesOn (messages_of events)

abbrev pub Sound : Endian → Client → List Event → Outcome → Type 0
Sound en first others (running p) = IsSound en first others p
Sound en first others (ended p) = IsDone en first p
Sound en first others crashed = Unit
Sound en first others hanging = Unit

-- The event that a step is, in front of those before.
abbrev pub with_step : Step → List Event → List Event
with_step (menu_event service clock id event_id) others = others
with_step message others = others
with_step (icon_host_registered works) others = new_icon_host works ∷ others
with_step (packet p) others = way_packet p ∷ others
with_step (packet_error e) others = way_packet_error e ∷ others

abbrev pub with_steps : List Step → List Event → List Event
with_steps [] others = others
with_steps (st ∷ steps) others = with_steps steps (with_step st others)
