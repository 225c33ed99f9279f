-- ===== src/Clipboard/Publish.antt =====
-- main.rs, `copy_dispatch` and `clear_dispatch`: exactly what they send and what they store.
use one_true_pairing.Common.{
  ℕ, ◌+◌, ◌%◌, ◌^◌, ◌≤◌, ◌≡◌, refl, sym, ap, ◌∙◌, true, Option, none, some, List, [], ◌∷◌, ◌++◌,
  arith, append-nil, append_assoc, length, length-append, All,
}
use one_true_pairing.Common.Bytes.{Bytes, Endian, to_ne_bytes, length-to_ne_bytes, is_utf8}
use one_true_pairing.Wlproto.Output.{tokenize_incoming_arg_type}
use one_true_pairing.WhaleLand.Error.{ObjectId, IsObjectId, ok}
use one_true_pairing.WhaleLand.Packet.{Packet, contains_nul}
use one_true_pairing.WhaleLand.Protocol.{string, object, new_id}
use one_true_pairing.WhaleLand.Protocol.Encoding.{IsText, encode_text}
use one_true_pairing.WhaleLand.Protocol.RoundTrip.{wire}
use one_true_pairing.WhaleLand.Protocol.ExtDataControl.{
  manager_request_create_data_source, device_request_set_selection, source_request_offer,
  source_request_destroy,
}
use one_true_pairing.Clipboard.State.{WaylandData, Client, plain_text_mime_types_sorted}
use one_true_pairing.Clipboard.Copy.{
  offer_types, publish, publish_new, copy_dispatch, destroy_source, clear_dispatch,
}
use one_true_pairing.Clipboard.Requests.{
  next_id_lem, sends, sends-sends, length-encode_text, request_lem,
}

-- A MIME type that an offer can carry.
record IsMimeType (t : Bytes) : Type 0 where
  text : IsText t
  short : length t ≤ 100

mime_types : All IsMimeType plain_text_mime_types_sorted
unfolding contains_nul is_utf8
mime_types = (
  record { text = record { short = omega arith; no_nul = refl; utf8 = refl }; short = omega arith },
  (
    record {
      text = record { short = omega arith; no_nul = refl; utf8 = refl };
      short = omega arith;
    },
    (
      record {
        text = record { short = omega arith; no_nul = refl; utf8 = refl };
        short = omega arith;
      },
      (
        record {
          text = record { short = omega arith; no_nul = refl; utf8 = refl };
          short = omega arith;
        },
        (
          record {
            text = record { short = omega arith; no_nul = refl; utf8 = refl };
            short = omega arith;
          },
          tt,
        ),
      ),
    ),
  ),
)

module _ (en : Endian) where
  abbrev pub offers : ObjectId → List Bytes → List Packet
  offers source_id [] = []
  offers source_id (t ∷ ts) = wire en 0 (string t ∷ []) source_id ∷ offers source_id ts

  -- A source is made, it offers every MIME type, and it becomes the selection.
  abbrev pub published : ObjectId → ObjectId → ObjectId → List Packet
  published manager_id device_id source_id =
      wire en 0 (new_id source_id ∷ []) manager_id
      ∷ (offers source_id plain_text_mime_types_sorted
          ++ (wire en 0 (object (some source_id) ∷ []) device_id ∷ []))

  offer_types_lem :
      (source_id : ObjectId) (ts : List Bytes) (c : Client)
      → All IsMimeType ts
      → c.connected ≡ true
      → offer_types en source_id ts c ≡ (ok tt, sends c (offers source_id ts))
  unfolding offer_types tokenize_incoming_arg_type
  offer_types_lem source_id [] c h e = λ i. (ok tt, record c { sent = sym (append-nil c.sent) i })
  offer_types_lem source_id (t ∷ ts) c h e =
      rw
        (request_lem en source_request_offer (string t ∷ []) source_id c (h.0.text, tt)
          (omega (arith, h.0.short, length-encode_text en t, length-append (encode_text en t) []))
          e)
        (offer_types_lem source_id ts (sends c (wire en 0 (string t ∷ []) source_id ∷ [])) h.1 e
          ∙ ap (λ c'. (ok tt, c')) (sends-sends c _ _))

  -- The client after `publish`.
  abbrev pub after_publish : ObjectId → ObjectId → Client → Client
  after_publish manager_id device_id c = record c {
    data_of = record c.data_of { clipboard_source_id = some c.next_object_id };
    next_object_id = (c.next_object_id + 1) % 2 ^ 32;
    sent = c.sent ++ published manager_id device_id c.next_object_id;
  }

  publish_lem :
      (manager_id device_id : ObjectId) (c : Client)
      → c.connected ≡ true
      → IsObjectId c.next_object_id
      → publish en manager_id device_id c ≡ (ok tt, after_publish manager_id device_id c)
  unfolding publish tokenize_incoming_arg_type
  publish_lem manager_id device_id c e h = rw (next_id_lem c h) (
      rw
        (request_lem en manager_request_create_data_source (new_id n ∷ []) manager_id c1 (h, tt)
          (word n) e)
        (rw (offer_types_lem n plain_text_mime_types_sorted c2 mime_types e) (
          rw
            (request_lem en device_request_set_selection (object (some n) ∷ []) device_id c3 (h, tt)
              (word n) e)
            (ap (λ ps. (ok tt, record (after_publish manager_id device_id c) { sent = ps }))
              (ap (λ ps. ps ++ last)
                  (append_assoc c.sent first (offers n plain_text_mime_types_sorted))
                ∙ append_assoc c.sent _ last)))))
    where
      n : ObjectId
      n = c.next_object_id

      first : List Packet
      first = wire en 0 (new_id n ∷ []) manager_id ∷ []

      last : List Packet
      last = wire en 0 (object (some n) ∷ []) device_id ∷ []

      c1 : Client
      c1 = record c { next_object_id = (n + 1) % 2 ^ 32 }

      c2 : Client
      c2 = sends c1 first

      c3 : Client
      c3 = sends c2 (offers n plain_text_mime_types_sorted)

      word : (w : ℕ) → length (to_ne_bytes en w ++ []) ≤ 65527
      word w = omega (arith, length-append (to_ne_bytes en w) [], length-to_ne_bytes en w)

  -- With a manager, a device and no source yet, on a socket that takes packets and with a next
  -- object ID that is valid, copy_dispatch stores the content, makes that ID the source, and sends
  -- exactly the request for the source, an offer of each plain-text MIME type, and the request
  -- that makes the source the selection.
  pub copy_dispatch-published :
      (content : Bytes) (c : Client) (manager_id device_id : ObjectId)
      → c.connected ≡ true
      → IsObjectId c.next_object_id
      → c.data_of.clipboard_source_id ≡ none
      → c.data_of.clipboard_manager_id ≡ some manager_id
      → c.data_of.clipboard_device_id ≡ some device_id
      → copy_dispatch en content c ≡ (
        ok tt,
        after_publish manager_id device_id
            (record c { data_of = record c.data_of { clipboard_data = some content } }),
      )
  unfolding copy_dispatch publish_new
  copy_dispatch-published content c manager_id device_id e h source manager device =
      rw (source, manager, device) (publish_lem manager_id device_id _ e h)

  -- The request that ends a source.
  abbrev pub destroys : Option ObjectId → List Packet
  destroys none = []
  destroys (some source_id) = wire en 1 [] source_id ∷ []

  -- On a socket that takes packets, clear_dispatch forgets the content and the source, and sends
  -- exactly one request that destroys the source; without a source it sends nothing.
  pub clear_dispatch-destroys :
      (c : Client)
      → c.connected ≡ true
      → clear_dispatch en c ≡ (
        ok tt,
        record c {
          data_of = record c.data_of { clipboard_data = none; clipboard_source_id = none };
          sent = c.sent ++ destroys c.data_of.clipboard_source_id;
        },
      )
  unfolding clear_dispatch destroy_source
  clear_dispatch-destroys c e = destroyed c.data_of.clipboard_source_id refl
    where
      emptied : WaylandData
      emptied = record c.data_of { clipboard_data = none }

      destroyed :
          (source : Option ObjectId)
          → c.data_of.clipboard_source_id ≡ source
          → destroy_source en source (record c { data_of = emptied }) ≡ (
            ok tt,
            record c {
              data_of = record emptied { clipboard_source_id = none };
              sent = c.sent ++ destroys source;
            },
          )
      destroyed none q = λ i. (
        ok tt,
        record c {
          data_of = record emptied { clipboard_source_id = q i };
          sent = sym (append-nil c.sent) i;
        },
      )
      destroyed (some source) q =
          rw
            (request_lem en source_request_destroy [] source (record c { data_of = emptied }) tt
              (omega arith) e)
            refl
