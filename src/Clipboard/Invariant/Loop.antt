-- ===== src/Clipboard/Invariant/Loop.antt =====
-- main.rs, the loop of `main`: the invariant holds however the messages of the menu and the packets
-- of the compositor interleave.
use one_true_pairing.Common.{◌≡◌, refl, Bool, true, false, none, some, List, [], ◌∷◌, if◌then◌else◌}
use one_true_pairing.Common.Bytes.{Endian}
use one_true_pairing.WhaleLand.Exec.{pure}
use one_true_pairing.WhaleLand.Exec.After.{After, After-bind}
use one_true_pairing.Clipboard.State.{copy, clear, exit, Client}
use one_true_pairing.Clipboard.MainLoop.{
  Event, clipboard_message, new_icon_host, way_packet, way_packet_error, ended, round, main_loop,
}
use one_true_pairing.Clipboard.Invariant.{
  IsConsistent, Consistent, copy_dispatch-Consistent, clear_dispatch-Consistent,
}
use one_true_pairing.Clipboard.Invariant.Events.{wayland_dispatch-Consistent}

-- Whether the loop goes on after an event.
abbrev pub goes_on : Event → Bool
goes_on (clipboard_message none) = false
goes_on (clipboard_message (some exit)) = false
goes_on _ = true

-- What a round leaves: its result, and consistent data.
abbrev pub Rounded : Event → Bool → Client → Type 0
Rounded event go_on c = (go_on ≡ goes_on event) × IsConsistent c.data_of

module _ (en : Endian) where
  pub round-Rounded :
      (event : Event) (c : Client)
      → IsConsistent c.data_of
      → After (Rounded event) (round en event c)
  unfolding round
  round-Rounded (clipboard_message none) c i = record { holds = (refl, i) }
  round-Rounded (clipboard_message (some exit)) c i = record { holds = (refl, i) }
  round-Rounded (clipboard_message (some (copy value))) c i =
      After-bind (copy_dispatch-Consistent en value c i) (λ u c' i'. record { holds = (refl, i') })
  round-Rounded (clipboard_message (some clear)) c i =
      After-bind (clear_dispatch-Consistent en c i) (λ u c' i'. record { holds = (refl, i') })
  round-Rounded (new_icon_host false) c i = record { holds = tt }
  round-Rounded (new_icon_host true) c i = record { holds = (refl, i) }
  round-Rounded (way_packet packet) c i =
      After-bind (wayland_dispatch-Consistent en packet c i)
        (λ u c' i'. record { holds = (refl, i') })
  round-Rounded (way_packet_error e) c i = record { holds = (refl, i) }

  -- From data where a device has its manager and seat and a source has its device and content,
  -- whatever messages and packets follow in whatever order, the event loop leaves such data,
  -- unless it panics.
  pub main_loop-IsConsistent :
      (events : List Event) (c : Client)
      → IsConsistent c.data_of
      → After Consistent (main_loop en events c)
  unfolding main_loop
  main_loop-IsConsistent [] c i = record { holds = i }
  main_loop-IsConsistent (event ∷ events) c i =
      After-bind (round-Rounded event c i)
        (λ go_on c' r. continued (main_loop-IsConsistent events) go_on c' r.1)
    where
      continued :
          ((c' : Client) → IsConsistent c'.data_of → After Consistent (main_loop en events c'))
          → (go_on : Bool) (c' : Client) → IsConsistent c'.data_of
          → After Consistent ((if go_on then main_loop en events else pure (ended events)) c')
      continued rest true c' i' = rest c' i'
      continued rest false c' i' = record { holds = i' }
