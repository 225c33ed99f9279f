-- ===== src/Program/Sound.antt =====
-- main.rs: what holds of the program at every moment, and when it ends.
pub mod History
pub mod Sending
use one_true_pairing.Common.{
  ℕ, zero, suc, ◌≡◌, refl, subst, sym, ap, ◌∙◌, Bool, true, false, Option, none, some, List, [],
  ◌∷◌, ◌++◌, append-nil, append_assoc, arith, length, length-append, get_elem?, All, All-append,
}
use one_true_pairing.Common.Bytes.{Bytes, Endian}
use one_true_pairing.Totp.Hotp.{Algorithm}
use one_true_pairing.WhaleLand.Error.{Result, ok, err, panic, hang}
use one_true_pairing.WhaleLand.Exec.After.{After}
use one_true_pairing.Clipboard.State.{ClipboardMessage, copy, clear, exit, Client}
use one_true_pairing.Clipboard.MainLoop.{
  Event, clipboard_message, new_icon_host, way_packet, way_packet_error, round,
}
use one_true_pairing.Clipboard.Invariant.{IsConsistent}
use one_true_pairing.Clipboard.Invariant.Loop.{goes_on, Rounded, round-Rounded}
use one_true_pairing.Secrets.Crypto.{Primitives}
use one_true_pairing.Secrets.Session.{SecretSession, drop_connection, get_secrets, get_secret}
use one_true_pairing.Menu.Click.{ContextMenu, Clicked, event}
use one_true_pairing.Program.{
  Program, Step, menu_event, message, icon_host_registered, packet, packet_error, Outcome, running,
  ended, crashed, hanging, after_round, after_event, receive, step, run,
}
use one_true_pairing.Program.Sound.History.{
  GoesOn, messages_of, others_of, Handled, IsSound, IsDone, Sound, with_step, with_steps,
}
use one_true_pairing.Program.Sound.Sending.{Extends, event-Extends}

get_elem?-append :
    (xs ys : List ClipboardMessage) (n : ℕ)
    → n ≡ length xs
    → get_elem? (xs ++ ys) n ≡ get_elem? ys 0
get_elem?-append [] ys zero e = refl
get_elem?-append [] ys (suc n) e = absurd (omega arith)
get_elem?-append (x ∷ xs) ys zero e = absurd (omega arith)
get_elem?-append (x ∷ xs) ys (suc n) e = get_elem?-append xs ys n (omega arith)

module _ (primitives : Primitives) (hmac : Algorithm → Bytes → Bytes → Bytes) (en : Endian)
    (first : Client) where
  -- The message that comes next.
  next_message :
      {os : List Event} (p : Program) (s : IsSound en first os p)
      → get_elem? p.menu.sent p.received ≡ get_elem? s.pending 0
  next_message p s =
      ap (λ xs. get_elem? xs p.received) s.in_order
      ∙ get_elem?-append (messages_of s.events) s.pending p.received s.counted

  after_event-Sound :
      {os : List Event} (p : Program) (x : Clicked)
      → IsSound en first os p
      → Extends p.menu x
      → Sound en first os (after_event p x)
  unfolding after_event
  after_event-Sound p (Clicked.returned menu) s (more, e) = record {
    consistent = s.consistent;
    connected = s.connected;
    events = s.events;
    handled = s.handled;
    outside = s.outside;
    pending = s.pending ++ more;
    in_order =
        e ∙ ap (λ xs. xs ++ more) s.in_order ∙ append_assoc (messages_of s.events) s.pending more;
    counted = s.counted;
    no_exit = s.no_exit;
  }
  after_event-Sound p Clicked.panicked s e = tt

  -- A round that was no message: what is known of the messages stays.
  other-Sound :
      {os : List Event} (p : Program) (e : Event) (x : Result Bool × Client)
      → IsSound en first os p
      → round en e p.client ≡ x
      → After (Rounded e) x
      → goes_on e ≡ true
      → ((events : List Event) → messages_of (e ∷ events) ≡ messages_of events)
      → ((events : List Event) → others_of (e ∷ events) ≡ e ∷ others_of events)
      → Sound en first (e ∷ os) (after_round p x)
  unfolding after_round
  other-Sound p e (ok true, c) s q h g m o = record {
    consistent = h.holds.1;
    connected = s.connected;
    events = e ∷ s.events;
    handled = (p.client, s.handled, q);
    outside = o s.events ∙ ap (λ xs. e ∷ xs) s.outside;
    pending = s.pending;
    in_order = s.in_order ∙ ap (λ xs. xs ++ s.pending) (sym (m s.events));
    counted = s.counted ∙ ap length (sym (m s.events));
    no_exit = subst (All GoesOn) (sym (m s.events)) s.no_exit;
  }
  other-Sound p e (ok false, c) s q h g m o = absurd (ground (arith, h.holds.0, g))
  other-Sound p e (err x, c) s q h g m o = tt
  other-Sound p e (panic, c) s q h g m o = tt
  other-Sound p e (hang, c) s q h g m o = tt

  -- The message that was the first of the pending ones.
  taken :
      {os : List Event} (p : Program) (s : IsSound en first os p) (m : ClipboardMessage)
      (rest : List ClipboardMessage)
      → s.pending ≡ m ∷ rest
      → p.menu.sent ≡ messages_of s.events ++ (m ∷ rest)
  taken p s m rest e = s.in_order ∙ ap (λ xs. messages_of s.events ++ xs) e

  message-Sound :
      {os : List Event} (p : Program) (s : IsSound en first os p) (m : ClipboardMessage)
      (rest : List ClipboardMessage) (x : Result Bool × Client)
      → s.pending ≡ m ∷ rest
      → GoesOn m
      → round en (clipboard_message (some m)) p.client ≡ x
      → After (Rounded (clipboard_message (some m))) x
      → goes_on (clipboard_message (some m)) ≡ true
      → Sound en first os (after_round (record p { received = suc p.received }) x)
  unfolding after_round
  message-Sound p s m rest (ok true, c) e g q h go = record {
    consistent = h.holds.1;
    connected = s.connected;
    events = clipboard_message (some m) ∷ s.events;
    handled = (p.client, s.handled, q);
    outside = s.outside;
    pending = rest;
    in_order = taken p s m rest e ∙ sym (append_assoc (messages_of s.events) (m ∷ []) rest);
    counted = omega (arith, s.counted, length-append (messages_of s.events) (m ∷ []));
    no_exit = All-append GoesOn (messages_of s.events) (m ∷ []) s.no_exit (g, tt);
  }
  message-Sound p s m rest (ok false, c) e g q h go = absurd (ground (arith, h.holds.0, go))
  message-Sound p s m rest (err x, c) e g q h go = tt
  message-Sound p s m rest (panic, c) e g q h go = tt
  message-Sound p s m rest (hang, c) e g q h go = tt

  -- The request to end leaves the client.
  exited :
      {os : List Event} (p : Program) (s : IsSound en first os p) (rest : List ClipboardMessage)
      → s.pending ≡ exit ∷ rest
      → Sound en first os (receive primitives hmac en (some exit) p)
  unfolding receive round after_round drop_connection
  exited p s rest e = record {
    consistent = s.consistent;
    disconnected = refl;
    events = s.events;
    handled = s.handled;
    pending = rest;
    in_order = taken p s exit rest e;
    counted = ap suc s.counted;
    no_exit = s.no_exit;
  }

  receive-Sound :
      {os : List Event} (p : Program) (s : IsSound en first os p) (pending : List ClipboardMessage)
      → s.pending ≡ pending
      → Sound en first os (receive primitives hmac en (get_elem? pending 0) p)
  unfolding receive
  receive-Sound p s [] e = s
  receive-Sound p s (copy text ∷ rest) e =
      message-Sound p s (copy text) rest _ e tt refl
        (round-Rounded en (clipboard_message (some (copy text))) p.client s.consistent) refl
  receive-Sound p s (clear ∷ rest) e =
      message-Sound p s clear rest _ e tt refl
        (round-Rounded en (clipboard_message (some clear)) p.client s.consistent) refl
  receive-Sound p s (exit ∷ rest) e = exited p s rest e

  step-Sound :
      {os : List Event} (st : Step) (p : Program)
      → IsSound en first os p
      → Sound en first (with_step st os) (step primitives hmac en st p)
  unfolding step
  step-Sound (menu_event service clock id event_id) p s = after_event-Sound p _ s (
      event-Extends (get_secrets primitives service p.session)
        (get_secret primitives service p.session) hmac clock id event_id p.menu)
  step-Sound message p s = rw (next_message p s) (receive-Sound p s s.pending refl)
  step-Sound (icon_host_registered works) p s =
      other-Sound p (new_icon_host works) _ s refl
        (round-Rounded en (new_icon_host works) p.client s.consistent) refl (λ es. refl)
        (λ es. refl)
  step-Sound (packet way_packet_of) p s =
      other-Sound p (way_packet way_packet_of) _ s refl
        (round-Rounded en (way_packet way_packet_of) p.client s.consistent) refl (λ es. refl)
        (λ es. refl)
  step-Sound (packet_error e) p s =
      other-Sound p (way_packet_error e) _ s refl
        (round-Rounded en (way_packet_error e) p.client s.consistent) refl (λ es. refl) (λ es. refl)

  -- However the calls of the bus, the messages and the packets interleave, from a sound program
  -- on: while the program runs, the data of the clipboard is consistent, the session has its
  -- connection, and the client of the clipboard is what the rounds of the loop have made of the
  -- first one, for exactly the events that came from outside, in order, and among them the
  -- messages received, which are the first ones that the menu has sent, each once and in order;
  -- the program ends only on the first request to end, with the client as the rounds before it had
  -- left it, and without the connection of the session.
  pub run-Sound :
      (steps : List Step) (others : List Event) (p : Program)
      → IsSound en first others p
      → Sound en first (with_steps steps others) (run primitives hmac en steps p)
  unfolding run
  run-Sound [] os p s = s
  run-Sound (st ∷ steps) os p s =
      continued (step primitives hmac en st p) refl (step-Sound st p s)
        (run-Sound steps (with_step st os))
    where
      continued :
          (x : Outcome)
          → step primitives hmac en st p ≡ x
          → Sound en first (with_step st os) x
          → ((p' : Program)
              → IsSound en first (with_step st os) p'
              → Sound en first
                  (with_steps steps (with_step st os))
                  (run primitives hmac en steps p'))
          → Sound en first
              (with_steps steps (with_step st os))
              (run primitives hmac en (st ∷ steps) p)
      continued (running p') e s' ih = rw (e, run) (ih p' s')
      continued (ended p') e s' ih = rw (e, run) s'
      continued crashed e s' ih = rw (e, run) tt
      continued hanging e s' ih = rw (e, run) tt
