-- ===== src/Clipboard/Serve.antt =====
-- main.rs, `wayland_dispatch`: what a client that pastes gets, and the end of our source.
use one_true_pairing.Common.{
  ◌≡◌, ◌≢◌, refl, subst, sym, Bool, true, false, not, ◌&&◌, ◌||◌, Option, none, some, List, [], ◌∷◌,
  ◌++◌, arith, ◌==◌, ==_refl, append-nil, if◌then◌else◌, Bool-cases, inl, inr,
}
use one_true_pairing.Common.Bytes.{Bytes, Endian}
use one_true_pairing.Wlproto.Output.{tokenize_incoming_arg_type}
use one_true_pairing.WhaleLand.Error.{ObjectId, display, Result, ok, err, panic, hang}
use one_true_pairing.WhaleLand.Exec.After.{After}
use one_true_pairing.WhaleLand.Packet.{RawFd}
use one_true_pairing.WhaleLand.Protocol.{string, fd}
use one_true_pairing.WhaleLand.Protocol.Encoding.{IsText}
use one_true_pairing.WhaleLand.Protocol.RoundTrip.{wire, try_from_packet-wire}
use one_true_pairing.WhaleLand.Protocol.ExtDataControl.{source_event_send}
use one_true_pairing.Clipboard.State.{
  WaylandData, Client, Pipe, pipe, async_fd, write_all, flush, close, plain_text_mime_types_sorted,
  contains, is_id,
}
use one_true_pairing.Clipboard.Dispatch.{
  write_content, send_event, source_event, object_event, wayland_dispatch,
}

-- What is written to the file descriptor of a `send` event: the content, if there is any, and if
-- plain text is what is asked for.
abbrev pub serves : Bytes → RawFd → Option Bytes → List (RawFd × Bytes)
serves mime_type target none = []
serves mime_type target (some content) =
    if contains plain_text_mime_types_sorted mime_type then (target, content) ∷ [] else []

abbrev pub is_wanted : Bytes → Option Bytes → Bool
is_wanted mime_type none = false
is_wanted mime_type (some content) = contains plain_text_mime_types_sorted mime_type

abbrev pub writes : Pipe → Bool
writes p = p.wraps && p.takes && p.flushes

-- Whether the file descriptor does what it is needed for.
abbrev pub serves_without_error : Bytes → Client → Bool
serves_without_error mime_type c =
    (not (is_wanted mime_type c.data_of.clipboard_data) || writes (pipe c)) && (pipe c).closes

abbrev pub served : Bytes → RawFd → Client → Client
served mime_type target c = record c {
  written = c.written ++ serves mime_type target c.data_of.clipboard_data;
  closed = c.closed ++ (target ∷ []);
}

-- A `send` event is served: the call returns where the file descriptor works, with the state after
-- it, and panics otherwise.
pub record Served (mime_type : Bytes) (target : RawFd) (c : Client) (r : Result (Unit {0}) × Client)
    : Type 0 where
  pub outcome : r.0 ≡ (if serves_without_error mime_type c then ok tt else panic)
  pub state : After (λ u c'. c' ≡ served mime_type target c) r

-- What it comes to where the file descriptor works.
pub Served-ok :
    (mime_type : Bytes) (target : RawFd) (c : Client) (r : Result (Unit {0}) × Client)
    → Served mime_type target c r
    → serves_without_error mime_type c ≡ true
    → r ≡ (ok tt, served mime_type target c)
Served-ok mime_type target c (ok u, c') s w = λ i. (ok u, s.state.holds i)
Served-ok mime_type target c (err e, c') s w = absurd (ground (arith, s.outcome, w))
Served-ok mime_type target c (panic, c') s w = absurd (ground (arith, s.outcome, w))
Served-ok mime_type target c (hang, c') s w = absurd (ground (arith, s.outcome, w))

panicked-After :
    {Q : Unit {0} → Client → Type 0} (r : Result (Unit {0}) × Client) → r.0 ≡ panic → After Q r
panicked-After (ok u, c) e = absurd (ground (arith, e))
panicked-After (err x, c) e = record { holds = tt }
panicked-After (panic, c) e = record { holds = tt }
panicked-After (hang, c) e = record { holds = tt }

both_true : (x y : Bool) → (x && y) ≡ true → (x ≡ true) × (y ≡ true)
both_true true true e = (refl, refl)
both_true true false e = absurd (ground (arith, e))
both_true false y e = absurd (ground (arith, e))

implied : (x y : Bool) → (not x || y) ≡ true → x ≡ true → y ≡ true
implied true true e f = refl
implied true false e f = e
implied false y e f = absurd (ground (arith, f))

not_implied : (x y : Bool) → (not x || y) ≡ false → (x ≡ true) × (y ≡ false)
not_implied true true e = absurd (ground (arith, e))
not_implied true false e = (refl, refl)
not_implied false y e = absurd (ground (arith, e))

all_true : (x y z : Bool) → (x && y && z) ≡ true → (x ≡ true) × (y ≡ true) × (z ≡ true)
all_true true true true e = (refl, refl, refl)
all_true true true false e = absurd (ground (arith, e))
all_true true false z e = absurd (ground (arith, e))
all_true false y z e = absurd (ground (arith, e))

module _ (en : Endian) where
  -- Where the file descriptor does what it is needed for, the content is written.
  write_content_lem :
      (mime_type : Bytes) (content : Option Bytes) (target : RawFd) (c : Client)
      → (not (is_wanted mime_type content) || writes (pipe c)) ≡ true
      → write_content en mime_type content target c
        ≡ (ok tt, record c { written = c.written ++ serves mime_type target content })
  unfolding write_content async_fd write_all flush
  write_content_lem mime_type none target c w =
      λ i. (ok tt, record c { written = sym (append-nil c.written) i })
  write_content_lem mime_type (some content) target c w =
      elim (Bool-cases (contains plain_text_mime_types_sorted mime_type)) [
        | inl e ↦
            let (a, b, f) =
              all_true (pipe c).wraps (pipe c).takes (pipe c).flushes (implied _ _ w e) in
            rw (e, a) (rw b (rw f refl))
        | inr e ↦ rw e (λ i. (ok tt, record c { written = sym (append-nil c.written) i }))
      ]

  write_content-broken :
      (mime_type : Bytes) (content : Option Bytes) (target : RawFd) (c : Client)
      → (not (is_wanted mime_type content) || writes (pipe c)) ≡ false
      → (write_content en mime_type content target c).0 ≡ panic
  unfolding write_content async_fd write_all flush
  write_content-broken mime_type none target c w = absurd (ground (arith, w))
  write_content-broken mime_type (some content) target c w =
      let (e, broken) =
        not_implied (contains plain_text_mime_types_sorted mime_type) (writes (pipe c)) w in
      elim (Bool-cases (pipe c).wraps) [
        | inr a ↦ rw (e, a) refl
        | inl a ↦ elim (Bool-cases (pipe c).takes) [
          | inr b ↦ rw (e, a) (rw b refl)
          | inl b ↦ elim (Bool-cases (pipe c).flushes) [
            | inr f ↦ rw (e, a) (rw b (rw f refl))
            | inl f ↦ absurd (ground (arith, broken, a, b, f))
          ]
        ]
      ]

  send_event-served :
      (mime_type : Bytes) (target : RawFd) (c : Client)
      → serves_without_error mime_type c ≡ true
      → send_event en (string mime_type ∷ fd target ∷ []) c ≡ (ok tt, served mime_type target c)
  unfolding send_event close
  send_event-served mime_type target c w =
      let (a, b) = both_true _ (pipe c).closes w in
      rw (write_content_lem mime_type c.data_of.clipboard_data target c a) (rw b refl)

  send_event-broken :
      (mime_type : Bytes) (target : RawFd) (c : Client)
      → serves_without_error mime_type c ≡ false
      → (send_event en (string mime_type ∷ fd target ∷ []) c).0 ≡ panic
  unfolding send_event close
  send_event-broken mime_type target c w =
      let content = c.data_of.clipboard_data in
      elim (Bool-cases (not (is_wanted mime_type content) || writes (pipe c))) [
        | inr a ↦ rw (write_content-broken mime_type content target c a) refl
        | inl a ↦
            let b : (pipe c).closes ≡ false = ground (arith, w, a) in
            rw (write_content_lem mime_type content target c a) (rw b refl)
      ]

  send_event-Served :
      (mime_type : Bytes) (target : RawFd) (c : Client)
      → Served mime_type target c (send_event en (string mime_type ∷ fd target ∷ []) c)
  send_event-Served mime_type target c = elim (Bool-cases (serves_without_error mime_type c)) [
    | inl w ↦
        subst (Served mime_type target c) (sym (send_event-served mime_type target c w))
          (record { outcome = rw w refl; state = record { holds = refl } })
    | inr w ↦
        let e = send_event-broken mime_type target c w in
        record { outcome = rw w e; state = panicked-After _ e }
  ]

  source_event-Served :
      (source : ObjectId) (mime_type : Bytes) (target : RawFd) (c : Client)
      → IsText mime_type
      → Served mime_type target c
          (source_event en (wire en 0 (string mime_type ∷ fd target ∷ []) source) c)
  unfolding source_event tokenize_incoming_arg_type
  source_event-Served source mime_type target c t =
      rw
        (try_from_packet-wire en 0 source_event_send.fields (string mime_type ∷ fd target ∷ [])
          source (t, (tt, tt)))
        (send_event-Served mime_type target c)

  object_event-Served :
      (d : WaylandData) (source : ObjectId) (mime_type : Bytes) (target : RawFd) (c : Client)
      → d.clipboard_source_id ≡ some source
      → source ≢ display
      → is_id source d.registry_id ≡ false
      → IsText mime_type
      → Served mime_type target c
          (object_event en (wire en 0 (string mime_type ∷ fd target ∷ []) source) d c)
  unfolding object_event
  object_event-Served d source mime_type target c e n r t =
      let x : (source == display) ≡ false = ground arith in
      rw (x, r, e, ==_refl source) (source_event-Served source mime_type target c t)

  pub wayland_dispatch-Served :
      (source : ObjectId) (mime_type : Bytes) (target : RawFd) (c : Client)
      → c.data_of.clipboard_source_id ≡ some source
      → source ≢ display
      → is_id source c.data_of.registry_id ≡ false
      → IsText mime_type
      → Served mime_type target c
          (wayland_dispatch en (wire en 0 (string mime_type ∷ fd target ∷ []) source) c)
  unfolding wayland_dispatch
  wayland_dispatch-Served source mime_type target c e n r t =
      object_event-Served c.data_of source mime_type target c e n r t
