-- ===== src/Clipboard/Invariant.antt =====
-- main.rs: what the handlers and the loop never break. A clipboard device needs a manager and a
-- seat, and a source needs a device and content.
pub mod Events
pub mod Loop
use one_true_pairing.Common.{
  ℕ, ◌≡◌, subst, refl, sym, ap, ◌∙◌, Bool, true, false, Option, none, some, List, [], ◌∷◌, ◌==◌,
  if◌then◌else◌, Bool-cases, inl, inr,
}
use one_true_pairing.Common.Bytes.{Bytes, Endian, codes}
use one_true_pairing.WhaleLand.Error.{ObjectId, display, Result, ok, err, panic, hang}
use one_true_pairing.WhaleLand.Exec.{Exec, pure, lift}
use one_true_pairing.WhaleLand.Exec.After.{After, After-map, After-bind}
use one_true_pairing.WhaleLand.Packet.{Packet, RawFd}
use one_true_pairing.WhaleLand.Protocol.{
  Value, uint, int, fixed, string, object, new_id, new_object, array, fd, Message,
}
use one_true_pairing.WhaleLand.Protocol.ExtDataControl.{
  manager_request_create_data_source, manager_request_get_data_device, device_request_set_selection,
  source_request_offer, source_request_destroy,
}
use one_true_pairing.Clipboard.State.{
  ClipboardMessage, copy, clear, exit, WaylandData, Client, plain_text_mime_types_sorted,
}
use one_true_pairing.Clipboard.Copy.{
  offer_types, publish, publish_new, copy_dispatch, destroy_source, clear_dispatch,
}
use one_true_pairing.Clipboard.Dispatch.{
  GlobalArgs, obtain_data_device, obtain_data_device_if_ready, bind_global, seat_global,
  manager_global, interface_global, global_event, write_content, send_event, display_event,
  registry_event, source_event, seat_event, data_offer, device_event, offer_event, object_event,
  wayland_dispatch,
}
use one_true_pairing.Clipboard.Frames.{
  Keeps, lift-Keeps, next_id-Keeps, get_data-Keeps, put_data_lem, request-Keeps, arguments-Keeps,
}

-- Manager, seat and device.
abbrev pub DeviceIsReady : Option ObjectId → Option ObjectId → Option ObjectId → Type 0
DeviceIsReady manager seat none = Unit
DeviceIsReady (some manager) (some seat) (some device) = Unit
DeviceIsReady _ _ (some device) = ⊥

-- Device, content and source.
abbrev pub SourceIsReady : Option ObjectId → Option Bytes → Option ObjectId → Type 0
SourceIsReady device content none = Unit
SourceIsReady (some device) (some content) (some source) = Unit
SourceIsReady _ _ (some source) = ⊥

pub record IsConsistent (d : WaylandData) : Type 0 where
  pub device : DeviceIsReady d.clipboard_manager_id d.seat_id d.clipboard_device_id
  pub source : SourceIsReady d.clipboard_device_id d.clipboard_data d.clipboard_source_id

abbrev pub Consistent : {A : Type 0} → A → Client → Type 0
Consistent a c = IsConsistent c.data_of

module _ (en : Endian) where
  offer_types-Keeps :
      {d : WaylandData} (source_id : ObjectId) (ts : List Bytes) (c : Client)
      → c.data_of ≡ d
      → After (Keeps d) (offer_types en source_id ts c)
  unfolding offer_types
  offer_types-Keeps source_id [] c e = record { holds = e }
  offer_types-Keeps source_id (t ∷ ts) c e =
      After-bind (request-Keeps en source_request_offer (string t ∷ []) source_id c e)
        (λ u c' e'. offer_types-Keeps source_id ts c' e')

  -- Only the source is new.
  publish_lem :
      {d : WaylandData} (manager_id device_id : ObjectId) (c : Client)
      → c.data_of ≡ d
      → After
          (λ u c'.
            (source_id : ObjectId) × (c'.data_of
              ≡ record d { clipboard_source_id = some source_id }))
          (publish en manager_id device_id c)
  unfolding publish
  publish_lem {d} manager_id device_id c e = After-bind (next_id-Keeps c e) (λ source_id c1 e1.
      After-bind (request-Keeps en manager_request_create_data_source _ manager_id c1 e1)
        (λ u c2 e2.
          After-bind (offer_types-Keeps source_id plain_text_mime_types_sorted c2 e2) (λ v c3 e3.
            After-bind (request-Keeps en device_request_set_selection _ device_id c3 e3) (λ w c4 e4.
              record {
                holds = (
                  source_id,
                  ap {A = WaylandData} (λ d'. record d' { clipboard_source_id = some source_id })
                      e4,
                );
              }))))

  -- Only the device is new.
  pub obtain_data_device_lem :
      {d : WaylandData} (manager_id seat_id : ObjectId) (c : Client)
      → c.data_of ≡ d
      → After
          (λ u c'.
            (device_id : ObjectId) × (c'.data_of
              ≡ record d { clipboard_device_id = some device_id }))
          (obtain_data_device en manager_id seat_id c)
  unfolding obtain_data_device
  obtain_data_device_lem {d} manager_id seat_id c e =
      After-bind (next_id-Keeps c e) (λ device_id c1 e1.
        After-bind (request-Keeps en manager_request_get_data_device _ manager_id c1 e1) (λ u c2 e2.
          record {
            holds = (
              device_id,
              ap {A = WaylandData} (λ d'. record d' { clipboard_device_id = some device_id }) e2,
            );
          }))

  pub consistent :
      {A : Type 0} {d : WaylandData} {x : Result A × Client}
      → IsConsistent d
      → After (Keeps d) x
      → After Consistent x
  consistent i k = After-map k (λ a s e. subst IsConsistent (sym e) i)

  -- With content, and no source where one is to come.
  publish_new-Consistent :
      (d : WaylandData) (content : Bytes) (c : Client)
      → IsConsistent d
      → d.clipboard_data ≡ some content
      → c.data_of ≡ d
      → After Consistent
          (publish_new en d.clipboard_source_id d.clipboard_manager_id d.clipboard_device_id c)
  unfolding publish_new
  publish_new-Consistent d content c i has e =
      cases d.clipboard_source_id d.clipboard_manager_id d.clipboard_device_id refl i.device
    where
      published :
          (device : ObjectId) (c' : Client)
          → d.clipboard_device_id ≡ some device
          → (source_id : ObjectId) × (c'.data_of
              ≡ record d { clipboard_source_id = some source_id })
          → IsConsistent c'.data_of
      published device c' q (source_id, e') = subst IsConsistent (sym e') (record {
        device = i.device;
        source =
            subst (λ o. SourceIsReady o d.clipboard_data (some source_id)) (sym q)
              (subst (λ o. SourceIsReady (some device) o (some source_id)) (sym has) tt);
      })

      cases :
          (source manager device : Option ObjectId)
          → d.clipboard_device_id ≡ device
          → DeviceIsReady d.clipboard_manager_id d.seat_id d.clipboard_device_id
          → After Consistent (publish_new en source manager device c)
      cases (some source) manager device q r = record { holds = subst IsConsistent (sym e) i }
      cases none (some manager) (some device) q r =
          After-map (publish_lem manager device c e) (λ u c' h. published device c' q h)
      cases none none device q r = record { holds = subst IsConsistent (sym e) i }
      cases none (some manager) none q r = record { holds = subst IsConsistent (sym e) i }

  with_content :
      (d : WaylandData) (content : Bytes)
      → IsConsistent d
      → IsConsistent (record d { clipboard_data = some content })
  with_content d content i = record {
    device = i.device;
    source = ready d.clipboard_device_id d.clipboard_data d.clipboard_source_id i.source;
  }
    where
      ready :
          (device : Option ObjectId) (old : Option Bytes) (source : Option ObjectId)
          → SourceIsReady device old source
          → SourceIsReady device (some content) source
      ready device old none h = tt
      ready (some device) old (some source) h = tt
      ready none old (some source) h = absurd h

  pub copy_dispatch-Consistent :
      (content : Bytes) (c : Client)
      → IsConsistent c.data_of
      → After Consistent (copy_dispatch en content c)
  unfolding copy_dispatch
  copy_dispatch-Consistent content c i =
      publish_new-Consistent (record c.data_of { clipboard_data = some content }) content
        (record c { data_of = record c.data_of { clipboard_data = some content } })
        (with_content c.data_of content i) refl refl

  pub clear_dispatch-Consistent :
      (c : Client) → IsConsistent c.data_of → After Consistent (clear_dispatch en c)
  unfolding clear_dispatch destroy_source
  clear_dispatch-Consistent c i = cleared c.data_of.clipboard_source_id refl
    where
      emptied : WaylandData
      emptied = record c.data_of { clipboard_data = none }

      cleared :
          (source : Option ObjectId)
          → c.data_of.clipboard_source_id ≡ source
          → After Consistent (destroy_source en source (record c { data_of = emptied }))
      cleared none e = record {
        holds = record {
          device = i.device;
          source = subst (λ o. SourceIsReady c.data_of.clipboard_device_id none o) (sym e) tt;
        };
      }
      cleared (some source) e =
          After-bind (request-Keeps {d = emptied} en source_request_destroy [] source _ refl)
            (λ u c' e'. record {
              holds = record {
                device =
                    subst
                      (λ d. DeviceIsReady d.clipboard_manager_id d.seat_id d.clipboard_device_id)
                      (sym e') i.device;
                source = tt;
              };
            })
