-- ===== src/Program/Paste.antt =====
-- The whole way of a code: a click on an entry of the menu, the message to the event loop, and the
-- client that pastes.
use one_true_pairing.Common.{
  ℕ, zero, suc, ◌<◌, ◌≡◌, ◌≢◌, refl, ap, ◌∙◌, true, false, none, some, List, [], ◌∷◌, ◌++◌, arith,
  length, get_elem?,
}
use one_true_pairing.Common.Int.{pos}
use one_true_pairing.Common.Bytes.{Bytes, Endian, codes, is_utf8}
use one_true_pairing.Totp.Hotp.{Algorithm, totp}
use one_true_pairing.Totp.Hotp.Codes.{IsHmac}
use one_true_pairing.Totp.Url.{TotpParameters, default_algorithm, try_from_otpauth_url}
use one_true_pairing.WhaleLand.Error.{ObjectId, IsObjectId, display, ok}
use one_true_pairing.WhaleLand.Packet.{Packet, RawFd}
use one_true_pairing.WhaleLand.Protocol.{string, fd}
use one_true_pairing.WhaleLand.Protocol.Encoding.{IsText}
use one_true_pairing.WhaleLand.Protocol.RoundTrip.{wire}
use one_true_pairing.Clipboard.State.{
  Pipe, pipe, ClipboardMessage, copy, Client, plain_text_mime_types_sorted, contains, is_id,
}
use one_true_pairing.Clipboard.MainLoop.{round}
use one_true_pairing.Clipboard.Copy.{copy_dispatch}
use one_true_pairing.Clipboard.Dispatch.{wayland_dispatch}
use one_true_pairing.Clipboard.Publish.{after_publish, copy_dispatch-published}
use one_true_pairing.Clipboard.Serve.{served, Served-ok, wayland_dispatch-Served}
use one_true_pairing.Secrets.Crypto.{Primitives}
use one_true_pairing.Secrets.Session.{Service, get_secrets, get_secret}
use one_true_pairing.Menu.Layout.{menu_update_id, get_property, value}
use one_true_pairing.Menu.Click.{
  ContextMenu, event, clicked, returned, send_message, unwrap_or, algorithm_of,
}
use one_true_pairing.Menu.Click.Format.{fixed_width}
use one_true_pairing.Menu.Click.Codes.{period_of, digits_of}
use one_true_pairing.Menu.Click.Shown.{names_of, event-shown}
use one_true_pairing.Program.{
  Program, Step, menu_event, message, packet, running, after_round, after_event, receive, step, run,
}

get_elem?-last :
    (ms : List ClipboardMessage) (m : ClipboardMessage) (n : ℕ)
    → n ≡ length ms
    → get_elem? (ms ++ (m ∷ [])) n ≡ some m
get_elem?-last [] m zero e = refl
get_elem?-last [] m (suc n) e = absurd (omega arith)
get_elem?-last (x ∷ ms) m zero e = absurd (omega arith)
get_elem?-last (x ∷ ms) m (suc n) e = get_elem?-last ms m n (omega arith)

-- The client that has published a text as a new source.
abbrev pub publishes : Endian → ObjectId → ObjectId → Bytes → Client → Client
publishes en manager_id device_id text c =
    after_publish en manager_id device_id
      (record c { data_of = record c.data_of { clipboard_data = some text } })

-- The client has its device and no source, its socket takes packets, and the next ID is a new one.
pub record IsReady (manager_id device_id : ObjectId) (c : Client) : Type 0 where
  pub connected : c.connected ≡ true
  pub next_valid : IsObjectId c.next_object_id
  pub not_display : c.next_object_id ≢ display
  pub not_registry : is_id c.next_object_id c.data_of.registry_id ≡ false
  pub no_source : c.data_of.clipboard_source_id ≡ none
  pub manager : c.data_of.clipboard_manager_id ≡ some manager_id
  pub device : c.data_of.clipboard_device_id ≡ some device_id

-- A file descriptor that can be written to and closed.
pub record IsWorking (p : Pipe) : Type 0 where
  pub wraps : p.wraps ≡ true
  pub takes : p.takes ≡ true
  pub flushes : p.flushes ≡ true
  pub closes : p.closes ≡ true

-- The program after the click, the message and the paste.
abbrev pub pasted : Endian → ObjectId → ObjectId → Bytes → Bytes → RawFd → Program → Program
pasted en manager_id device_id text mime_type target p = record {
  session = p.session;
  menu = send_message (copy text) p.menu;
  received = suc p.received;
  client = served mime_type target (publishes en manager_id device_id text p.client);
}

module _ (primitives : Primitives) {hmac : Algorithm → Bytes → Bytes → Bytes} (h : IsHmac hmac)
    (en : Endian) where
  step-clicked :
      (service : Service) (unix_time k : ℕ) (p : Program) (menu : ContextMenu)
      → event
          (get_secrets primitives service p.session)
          (get_secret primitives service p.session)
          hmac
          (some unix_time)
          (pos (suc k))
          clicked
          p.menu
        ≡ returned menu
      → step primitives hmac en (menu_event service (some unix_time) (pos (suc k)) clicked) p
        ≡ running (record p { menu = menu })
  unfolding step after_event
  step-clicked service unix_time k p menu e = ap (after_event p) e

  step-received :
      (text : Bytes) (p : Program) (c : Client)
      → get_elem? p.menu.sent p.received ≡ some (copy text)
      → copy_dispatch en text p.client ≡ (ok tt, c)
      → step primitives hmac en message p
        ≡ running (record p { received = suc p.received; client = c })
  unfolding step receive round after_round
  step-received text p c next e = rw next (rw e refl)

  step-packet :
      (sent : Packet) (p : Program) (c : Client)
      → wayland_dispatch en sent p.client ≡ (ok tt, c)
      → step primitives hmac en (packet sent) p ≡ running (record p { client = c })
  unfolding step round after_round
  step-packet sent p c e = rw e refl

  run-nil : (p : Program) → run primitives hmac en [] p ≡ running p
  unfolding run
  run-nil p = refl

  run-step :
      (st : Step) (steps : List Step) (p p' : Program)
      → step primitives hmac en st p ≡ running p'
      → run primitives hmac en (st ∷ steps) p ≡ run primitives hmac en steps p'
  unfolding run
  run-step st steps p p' e = rw (e, run) refl

  -- Where all messages have been received and the client is ready, a click on the entry that shows
  -- a name, the next round of the loop, and a request to paste from the new source, for a MIME
  -- type of plain text, write exactly the code of the secret under that name at the time of the
  -- click to the file descriptor, and close it, where the clock is not before 1970, the secret is
  -- read, is UTF-8, and is a URL with parameters and a known algorithm, the file descriptor can be
  -- wrapped, takes the bytes, is flushed, and is closed without an error, there are fewer names
  -- than the lowest of the fixed IDs, and the HMAC's result has the digest's length.
  pub run-pasted :
      (service : Service) (unix_time k : ℕ) (p : Program) (manager_id device_id : ObjectId)
      (name path secret mime_type : Bytes) (target : RawFd) (params : TotpParameters)
      (a : Algorithm)
      → length p.menu.secret_name_to_path < menu_update_id
      → get_elem? p.menu.secret_name_to_path k ≡ some (name, path)
      → get_secret primitives service p.session path ≡ some (some secret)
      → is_utf8 secret ≡ true
      → try_from_otpauth_url secret ≡ some params
      → algorithm_of (unwrap_or default_algorithm params.algorithm) ≡ some a
      → p.received ≡ length p.menu.sent
      → IsReady manager_id device_id p.client
      → IsText mime_type
      → contains plain_text_mime_types_sorted mime_type ≡ true
      → IsWorking (pipe p.client)
      → (code : ℕ) × (text : Bytes) × (p' : Program) × (get_property
            (names_of p.menu)
            (pos (suc k))
            (codes "label")
          ≡ some (value name))
        × (totp hmac a params.key unix_time (period_of params) (digits_of params) ≡ some code)
        × (text ≡ fixed_width (digits_of params) code)
        × (run primitives hmac en
              (menu_event service (some unix_time) (pos (suc k)) clicked
                ∷ message
                ∷ packet (wire en 0 (string mime_type ∷ fd target ∷ []) p.client.next_object_id)
                ∷ [])
              p
            ≡ running p')
        × (p'.client.written ≡ p.client.written ++ ((target, text) ∷ []))
        × (p'.client.closed ≡ p.client.closed ++ (target ∷ []))
  run-pasted service unix_time k p manager_id device_id name path secret mime_type target params a
        few e_path e_secret e_utf8 e_params e_algorithm received ready text_ok plain works =
      let (code, label, e_code, clicks) =
        event-shown (get_secrets primitives service p.session)
          (get_secret primitives service p.session) h unix_time p.menu k name path secret params a
          few e_path e_secret e_utf8 e_params e_algorithm in
      let text = fixed_width (digits_of params) code in
      let p1 : Program = record p { menu = send_message (copy text) p.menu } in
      let c = publishes en manager_id device_id text p.client in
      let p2 : Program = record p1 { received = suc p.received; client = c } in
      let sent = wire en 0 (string mime_type ∷ fd target ∷ []) p.client.next_object_id in
      let first = step-clicked service unix_time k p _ clicks in
      let second =
        step-received text p1 c (get_elem?-last p.menu.sent (copy text) p.received received) (
          copy_dispatch-published en text p.client manager_id device_id ready.connected
            ready.next_valid ready.no_source ready.manager ready.device) in
      let third = step-packet sent p2 _ (
        Served-ok mime_type target c _
          (wayland_dispatch-Served en p.client.next_object_id mime_type target c refl
            ready.not_display ready.not_registry text_ok)
          (rw (plain, works.wraps, works.takes, works.flushes, works.closes) refl)) in
      (
        code,
        text,
        pasted en manager_id device_id text mime_type target p,
        label,
        e_code,
        refl,
        run-step _ _ p p1 first ∙ run-step _ _ p1 p2 second ∙ run-step _ _ p2 _ third ∙ run-nil _,
        rw plain refl,
        refl,
      )
