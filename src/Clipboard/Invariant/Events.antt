-- ===== src/Clipboard/Invariant/Events.antt =====
-- main.rs, `wayland_dispatch` and the loop: no packet breaks the invariant.
use one_true_pairing.Common.{
  ◌≡◌, subst, refl, sym, Bool, true, false, Option, none, some, List, [], ◌∷◌, ◌==◌, if◌then◌else◌,
  Bool-cases, inl, inr,
}
use one_true_pairing.Common.Bytes.{Bytes, Endian, codes}
use one_true_pairing.WhaleLand.Error.{ObjectId, display, ok, panic}
use one_true_pairing.WhaleLand.Exec.{Exec, pure, continue, ◌>>=◌, ◌>>◌}
use one_true_pairing.WhaleLand.Exec.After.{After, After-map, After-bind}
use one_true_pairing.WhaleLand.Packet.{Packet}
use one_true_pairing.WhaleLand.Protocol.{Value, uint, string, new_id, fd, Message}
use one_true_pairing.WhaleLand.Protocol.ExtDataControl.{
  device_event_data_offer, device_event_selection, device_event_finished,
  device_event_primary_selection, source_event_send, source_event_cancelled, offer_event_offer,
}
use one_true_pairing.WhaleLand.Protocol.Wayland.{
  wl_display_event_error, wl_registry_event_global, wl_seat_event_capabilities, wl_seat_event_name,
}
use one_true_pairing.Totp.Url.{bytes_eq}
use one_true_pairing.Clipboard.State.{
  pipe, async_fd, write_all, flush, close, WaylandData, Client, plain_text_mime_types_sorted,
  contains, is_id, arguments,
}
use one_true_pairing.Clipboard.Dispatch.{
  GlobalArgs, unwrap, global_args, global_event_args_to_bind_request_packet, when_ready,
  obtain_data_device_if_ready, bind_global, seat_global, manager_global, interface_global,
  global_event, write_content, send_event, display_event, registry_event, source_event, seat_event,
  data_offer, device_event, offer_event, object_event, wayland_dispatch,
}
use one_true_pairing.Clipboard.Frames.{
  Keeps, lift-Keeps, next_id-Keeps, send_packet-Keeps, arguments-Keeps,
}
use one_true_pairing.Clipboard.Invariant.{
  DeviceIsReady, SourceIsReady, IsConsistent, Consistent, obtain_data_device_lem,
}

source_ready :
    (old : Option ObjectId) (device : ObjectId) (content : Option Bytes) (source : Option ObjectId)
    → SourceIsReady old content source
    → SourceIsReady (some device) content source
source_ready old device content none h = tt
source_ready (some d) device (some content) (some source) h = tt
source_ready (some d) device none (some source) h = absurd h
source_ready none device content (some source) h = absurd h

with_seat :
    (manager device : Option ObjectId) (new : ObjectId)
    → DeviceIsReady manager none device
    → DeviceIsReady manager (some new) device
with_seat manager none new h = tt
with_seat none (some device) new h = absurd h
with_seat (some manager) (some device) new h = absurd h

with_manager :
    (seat device : Option ObjectId) (new : ObjectId)
    → DeviceIsReady none seat device
    → DeviceIsReady (some new) seat device
with_manager seat none new h = tt
with_manager seat (some device) new h = absurd h

unwrap-Keeps :
    {d : WaylandData} (o : Option ObjectId) (c : Client)
    → c.data_of ≡ d
    → After (Keeps d) (unwrap o c)
unwrap-Keeps none c e = record { holds = tt }
unwrap-Keeps (some id) c e = record { holds = e }

-- From this state the call keeps the invariant.
pub record Safe (c : Client) (m : Exec Client (Unit {0})) : Type 0 where
  pub after : IsConsistent c.data_of → After Consistent (m c)

Safe-pure : (c : Client) → Safe c (pure tt)
Safe-pure c = record { after = λ i. record { holds = i } }

Safe-if :
    {c : Client} {m n : Exec Client (Unit {0})} (b : Bool)
    → Safe c m
    → Safe c n
    → Safe c (if b then m else n)
Safe-if true h k = h
Safe-if false h k = k

module _ (en : Endian) where
  when_ready-Consistent :
      (manager seat : Option ObjectId) (c : Client)
      → c.data_of.clipboard_manager_id ≡ manager
      → c.data_of.seat_id ≡ seat
      → IsConsistent c.data_of
      → After Consistent (when_ready en manager seat c)
  when_ready-Consistent none seat c e f i = record { holds = i }
  when_ready-Consistent (some manager) none c e f i = record { holds = i }
  when_ready-Consistent (some manager) (some seat) c e f i =
      After-map (obtain_data_device_lem en manager seat c refl) (λ u c' h.
        subst IsConsistent (sym h.1) (record {
          device =
              subst (λ m. DeviceIsReady m c.data_of.seat_id (some h.0)) (sym e)
                (subst (λ s. DeviceIsReady (some manager) s (some h.0)) (sym f) tt);
          source = source_ready c.data_of.clipboard_device_id h.0 _ _ i.source;
        }))

  obtain_data_device_if_ready-Consistent :
      (c : Client) → IsConsistent c.data_of → After Consistent (obtain_data_device_if_ready en c)
  unfolding obtain_data_device_if_ready
  obtain_data_device_if_ready-Consistent c i = when_ready-Consistent _ _ c refl refl i

  bind_global-Keeps :
      {d : WaylandData} (args : GlobalArgs) (c : Client)
      → c.data_of ≡ d
      → After (Keeps d) (bind_global en args c)
  unfolding bind_global
  bind_global-Keeps args c e = After-bind (next_id-Keeps c e) (λ id c1 e1.
      After-bind (unwrap-Keeps c1.data_of.registry_id c1 e1) (λ registry c2 e2.
        After-bind (lift-Keeps (global_event_args_to_bind_request_packet en args id registry) c2 e2)
          (λ p c3 e3.
            After-bind (send_packet-Keeps en p c3 e3) (λ u c4 e4. record { holds = e4 }))))

  seat_global-Consistent :
      (args : GlobalArgs) (seat : Option ObjectId) (c : Client)
      → c.data_of.seat_id ≡ seat
      → IsConsistent c.data_of
      → After Consistent (seat_global en args seat c)
  unfolding seat_global
  seat_global-Consistent args (some dupe) c e i = record { holds = i }
  seat_global-Consistent args none c e i = After-bind (bind_global-Keeps args c refl) (λ id c1 e1.
      obtain_data_device_if_ready-Consistent
        (record c1 { data_of = record c1.data_of { seat_id = some id } })
        (subst (λ d. IsConsistent (record d { seat_id = some id })) (sym e1)
          (record {
            device = with_seat _ _ id (
                subst
                  (λ s.
                    DeviceIsReady c.data_of.clipboard_manager_id s c.data_of.clipboard_device_id)
                  e i.device);
            source = i.source;
          })))

  manager_global-Consistent :
      (args : GlobalArgs) (manager : Option ObjectId) (c : Client)
      → c.data_of.clipboard_manager_id ≡ manager
      → IsConsistent c.data_of
      → After Consistent (manager_global en args manager c)
  unfolding manager_global
  manager_global-Consistent args (some dupe) c e i = record { holds = i }
  manager_global-Consistent args none c e i =
      After-bind (bind_global-Keeps args c refl) (λ id c1 e1.
        obtain_data_device_if_ready-Consistent
          (record c1 { data_of = record c1.data_of { clipboard_manager_id = some id } })
          (subst (λ d. IsConsistent (record d { clipboard_manager_id = some id })) (sym e1)
            (record {
              device = with_manager _ _ id (
                  subst (λ m. DeviceIsReady m c.data_of.seat_id c.data_of.clipboard_device_id) e
                    i.device);
              source = i.source;
            })))

  interface_global-Safe :
      (args : GlobalArgs) (c : Client) → Safe c (interface_global en args c.data_of)
  unfolding interface_global
  interface_global-Safe args c =
      Safe-if (bytes_eq args.interface (codes "wl_seat"))
        (record { after = seat_global-Consistent args _ c refl })
        (Safe-if (bytes_eq args.interface (codes "ext_data_control_manager_v1"))
          (record { after = manager_global-Consistent args _ c refl }) (Safe-pure c))

  globals-Consistent :
      (vs : List Value) (c : Client)
      → IsConsistent c.data_of
      → After Consistent (continue (global_args vs c).0 (global_event en) (global_args vs c).1)
  unfolding global_event
  globals-Consistent vs c i =
      After-bind (taken vs)
        (λ args c' e. (interface_global-Safe args c').after (subst IsConsistent (sym e) i))
    where
      taken : (ws : List Value) → After (Keeps c.data_of) (global_args ws c)
      taken (uint n ∷ string t ∷ uint v ∷ []) = record { holds = refl }
      taken _ = record { holds = tt }

  -- The arguments are decoded, and nothing else happens.
  logged : (m : Message) (p : Packet) (c : Client) → Safe c (arguments en m p >> pure tt)
  logged m p c = record {
    after = λ i.
        After-bind (arguments-Keeps en m p c refl)
          (λ vs c' e. record { holds = subst IsConsistent (sym e) i });
  }

  -- The arguments are decoded, and `f` goes on with them.
  decoded :
      (m : Message) (p : Packet) (c : Client) {f : List Value → Exec Client (Unit {0})}
      → ((vs : List Value) (c' : Client) → IsConsistent c'.data_of → After Consistent (f vs c'))
      → Safe c (arguments en m p >>= f)
  decoded m p c g = record {
    after = λ i.
        After-bind (arguments-Keeps en m p c refl)
          (λ vs c' e. g vs c' (subst IsConsistent (sym e) i));
  }

  display_event-Safe : (p : Packet) (c : Client) → Safe c (display_event en p)
  unfolding display_event
  display_event-Safe p c = Safe-if _ (logged wl_display_event_error p c) (Safe-pure c)

  registry_event-Safe : (p : Packet) (c : Client) → Safe c (registry_event en p)
  unfolding registry_event
  registry_event-Safe p c =
      Safe-if (p.opcode == wl_registry_event_global.opcode)
        (decoded wl_registry_event_global p c globals-Consistent) (Safe-pure c)

  -- What is done with a file descriptor, if that works.
  worked-Keeps :
      {d : WaylandData} (works : Bool) (c c' : Client)
      → c'.data_of ≡ d
      → After (Keeps {A = Unit {0}} d) (if works then (ok tt, c') else (panic, c))
  worked-Keeps true c c' e = record { holds = e }
  worked-Keeps false c c' e = record { holds = tt }

  send_event-Consistent :
      (vs : List Value) (c : Client)
      → IsConsistent c.data_of
      → After Consistent (send_event en vs c)
  unfolding send_event write_content async_fd write_all flush close
  send_event-Consistent (string mime_type ∷ fd target ∷ []) c i =
      After-bind (written c.data_of.clipboard_data) (λ u c' e.
        After-map (worked-Keeps (pipe c').closes c' _ e)
          (λ v c'' e'. subst IsConsistent (sym e') i))
    where
      written : (o : Option Bytes) → After (Keeps c.data_of) (write_content en mime_type o target c)
      written none = record { holds = refl }
      written (some content) = elim (Bool-cases (contains plain_text_mime_types_sorted mime_type)) [
        | inl e ↦ rw e (
            After-bind (worked-Keeps (pipe c).wraps c c refl) (λ u c1 e1.
              After-bind (worked-Keeps (pipe c1).takes c1 _ e1)
                (λ v c2 e2. worked-Keeps (pipe c2).flushes c2 c2 e2)))
        | inr e ↦ rw e (record { holds = refl })
      ]
  send_event-Consistent _ c i = record { holds = tt }

  source_event-Safe : (p : Packet) (c : Client) → Safe c (source_event en p)
  unfolding source_event
  source_event-Safe p c =
      Safe-if (p.opcode == source_event_send.opcode)
        (decoded source_event_send p c send_event-Consistent)
        (Safe-if (p.opcode == source_event_cancelled.opcode)
          (record { after = λ i. record { holds = record { device = i.device; source = tt } } })
          (Safe-pure c))

  seat_event-Safe : (p : Packet) (c : Client) → Safe c (seat_event en p)
  unfolding seat_event
  seat_event-Safe p c =
      Safe-if (p.opcode == wl_seat_event_capabilities.opcode)
        (logged wl_seat_event_capabilities p c)
        (Safe-if (p.opcode == wl_seat_event_name.opcode) (logged wl_seat_event_name p c)
          (Safe-pure c))

  data_offer-Consistent :
      (vs : List Value) (c : Client)
      → IsConsistent c.data_of
      → After Consistent (data_offer en vs c)
  unfolding data_offer
  data_offer-Consistent (new_id offered ∷ []) c i = record {
    holds = record { device = i.device; source = i.source };
  }
  data_offer-Consistent _ c i = record { holds = tt }

  device_event-Safe : (p : Packet) (c : Client) → Safe c (device_event en p)
  unfolding device_event
  device_event-Safe p c =
      Safe-if (p.opcode == device_event_data_offer.opcode)
        (decoded device_event_data_offer p c data_offer-Consistent)
        (Safe-if (p.opcode == device_event_selection.opcode) (logged device_event_selection p c) (
          Safe-if (p.opcode == device_event_finished.opcode) (logged device_event_finished p c) (
            Safe-if (p.opcode == device_event_primary_selection.opcode)
              (logged device_event_primary_selection p c) (Safe-pure c))))

  offer_event-Safe : (p : Packet) (c : Client) → Safe c (offer_event en p)
  unfolding offer_event
  offer_event-Safe p c =
      Safe-if (p.opcode == offer_event_offer.opcode) (logged offer_event_offer p c) (Safe-pure c)

  object_event-Safe : (p : Packet) (d : WaylandData) (c : Client) → Safe c (object_event en p d)
  unfolding object_event
  object_event-Safe p d c = Safe-if (p.object_id == display) (display_event-Safe p c) (
      Safe-if (is_id p.object_id d.registry_id) (registry_event-Safe p c) (
        Safe-if (is_id p.object_id d.clipboard_source_id) (source_event-Safe p c) (
          Safe-if (is_id p.object_id d.seat_id) (seat_event-Safe p c) (
            Safe-if (is_id p.object_id d.clipboard_device_id) (device_event-Safe p c) (
              Safe-if (is_id p.object_id d.clipboard_manager_id) (Safe-pure c) (
                Safe-if (is_id p.object_id d.incoming_offer_id) (offer_event-Safe p c)
                  (Safe-pure c)))))))

  pub wayland_dispatch-Consistent :
      (p : Packet) (c : Client)
      → IsConsistent c.data_of
      → After Consistent (wayland_dispatch en p c)
  unfolding wayland_dispatch
  wayland_dispatch-Consistent p c i = (object_event-Safe p c.data_of c).after i
