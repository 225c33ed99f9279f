-- ===== src/WhaleLand/Connection/Send.antt =====
-- connection.rs, `send_packet`: however the socket takes the bytes, all of them go out in order.
use one_true_pairing.Common.{
  ℕ, zero, suc, ◌≤◌, ◌<◌, ◌≡◌, refl, sym, ap, ◌∙◌, List, [], ◌∷◌, ◌++◌, append-nil, append_assoc,
  arith, length, take, drop, All, length-drop, take-append-drop,
}
use one_true_pairing.Common.Bytes.{Bytes, Endian}
use one_true_pairing.WhaleLand.Error.{ok}
use one_true_pairing.WhaleLand.Packet.{Packet, RawFd, serialize}
use one_true_pairing.WhaleLand.Socket.{
  Acceptance, would_block, failed, accepts, Outgoing, send_on, send_with_fds, send,
}
use one_true_pairing.WhaleLand.Connection.{send_loop, send_packet}

-- No error, and no write of no bytes.
abbrev pub IsAccepting : Acceptance → Type 0
IsAccepting would_block = Unit
IsAccepting (failed e) = ⊥
IsAccepting (accepts n) = 0 < n

-- The answers that take bytes.
abbrev pub acceptances : List Acceptance → ℕ
acceptances [] = 0
acceptances (would_block ∷ s) = acceptances s
acceptances (failed e ∷ s) = acceptances s
acceptances (accepts n ∷ s) = suc (acceptances s)

-- All that has been written, the first write first.
abbrev pub stream : List (Bytes × List RawFd) → Bytes
stream [] = []
stream ((bs, fds) ∷ w) = stream w ++ bs

abbrev pub all_sent_fds : List (Bytes × List RawFd) → List RawFd
all_sent_fds [] = []
all_sent_fds ((bs, fds) ∷ w) = all_sent_fds w ++ fds

-- The file descriptors of the first write.
abbrev pub first_sent_fds : List (Bytes × List RawFd) → List RawFd
first_sent_fds [] = []
first_sent_fds ((bs, fds) ∷ []) = fds
first_sent_fds (write ∷ before ∷ w) = first_sent_fds (before ∷ w)

first_sent_fds-append :
    (front : List (Bytes × List RawFd)) (bs : Bytes) (fds : List RawFd)
    → first_sent_fds (front ++ ((bs, fds) ∷ [])) ≡ fds
first_sent_fds-append [] bs fds = refl
first_sent_fds-append (x ∷ []) bs fds = refl
first_sent_fds-append (x ∷ y ∷ front) bs fds = first_sent_fds-append (y ∷ front) bs fds

-- One write: a front part of the bytes goes out with the file descriptors.
record Wrote (s : List Acceptance) (w : List (Bytes × List RawFd)) (bs : Bytes) (fds : List RawFd)
    : Type 0 where
  limit : ℕ
  rest : List Acceptance
  positive : 0 < limit
  result :
      send_on s w bs fds
      ≡ (ok (length (take limit bs)), record { answers = rest; written = (take limit bs, fds) ∷ w })
  accepting : All IsAccepting rest
  fewer : acceptances s ≡ suc (acceptances rest)

send_on-Wrote :
    (s : List Acceptance) (w : List (Bytes × List RawFd)) (bs : Bytes) (fds : List RawFd)
    → All IsAccepting s
    → 0 < acceptances s
    → Wrote s w bs fds
unfolding send_on
send_on-Wrote [] w bs fds h n = absurd (omega arith)
send_on-Wrote (would_block ∷ s) w bs fds h n =
    let r = send_on-Wrote s w bs fds h.1 n in
    record {
      limit = r.limit;
      rest = r.rest;
      positive = r.positive;
      result = r.result;
      accepting = r.accepting;
      fewer = r.fewer;
    }
send_on-Wrote (failed e ∷ s) w bs fds h n = absurd h.0
send_on-Wrote (accepts k ∷ s) w bs fds h n = record {
  limit = k;
  rest = s;
  positive = h.0;
  result = refl;
  accepting = h.1;
  fewer = refl;
}

drop-take : (n : ℕ) (bs : Bytes) → drop (length (take n bs)) bs ≡ drop n bs
drop-take zero bs = refl
drop-take (suc n) [] = refl
drop-take (suc n) (b ∷ bs) = drop-take n bs

-- The bytes `bs` and the file descriptors `fds` have gone out after what was written before, the
-- file descriptors with the first write.
pub record Sent (o : Outgoing) (bs : Bytes) (fds : List RawFd) (o' : Outgoing) : Type 0 where
  pub bytes : stream o'.written ≡ stream o.written ++ bs
  pub descriptors : all_sent_fds o'.written ≡ all_sent_fds o.written ++ fds
  pub front : List (Bytes × List RawFd)
  pub grown : o'.written ≡ front ++ o.written
  pub first : o.written ≡ [] → first_sent_fds o'.written ≡ fds

-- After a first write, which the later ones stand in front of.
first_write :
    (o' : Outgoing) (front w : List (Bytes × List RawFd)) (bs : Bytes) (fds : List RawFd)
    → o'.written ≡ front ++ ((bs, fds) ∷ w)
    → w ≡ []
    → first_sent_fds o'.written ≡ fds
first_write o' front w bs fds e f =
    ap first_sent_fds (e ∙ ap (λ x. front ++ ((bs, fds) ∷ x)) f)
    ∙ first_sent_fds-append front bs fds

send_loop-step :
    (fuel : ℕ) (b : ℕ) (bs : Bytes) (o o' : Outgoing) (count : ℕ)
    → send_on o.answers o.written (b ∷ bs) [] ≡ (ok count, o')
    → send_loop (suc fuel) (b ∷ bs) o ≡ send_loop fuel (drop count (b ∷ bs)) o'
unfolding send_loop send
send_loop-step fuel b bs o o' count e = rw e refl

send_loop_lem :
    (fuel : ℕ) (bs : Bytes) (s : List Acceptance) (w : List (Bytes × List RawFd))
    → All IsAccepting s
    → length bs ≤ fuel
    → length bs ≤ acceptances s
    → (o' : Outgoing) × (send_loop fuel bs (record { answers = s; written = w }) ≡ (ok tt, o'))
      × Sent (record { answers = s; written = w }) bs [] o'
unfolding send_loop
send_loop_lem fuel [] s w h f a = (
  _,
  refl,
  record {
    bytes = sym (append-nil _);
    descriptors = sym (append-nil _);
    front = [];
    grown = refl;
    first = λ e. ap first_sent_fds e;
  },
)
send_loop_lem zero (b ∷ bs) s w h f a = absurd (omega arith)
send_loop_lem (suc fuel) (b ∷ bs) s w h f a =
    let r = send_on-Wrote s w (b ∷ bs) [] h (omega arith) in
    let e = drop-take r.limit (b ∷ bs) in
    let l = length-drop r.limit (b ∷ bs) in
    let (o', q, t) =
      send_loop_lem fuel (drop r.limit (b ∷ bs)) r.rest ((take r.limit (b ∷ bs), []) ∷ w)
        r.accepting (omega (arith, l, r.positive)) (omega (arith, l, r.positive, r.fewer)) in
    (
      o',
      send_loop-step fuel b bs _ _ _ r.result
          ∙ ap
              (λ xs.
                send_loop fuel xs
                  (record { answers = r.rest; written = (take r.limit (b ∷ bs), []) ∷ w }))
              e
          ∙ q,
      record {
        bytes =
            t.bytes
            ∙ append_assoc (stream w) (take r.limit (b ∷ bs)) (drop r.limit (b ∷ bs))
            ∙ ap (λ xs. stream w ++ xs) (take-append-drop r.limit (b ∷ bs));
        descriptors = t.descriptors ∙ append-nil _;
        front = t.front ++ ((take r.limit (b ∷ bs), []) ∷ []);
        grown = t.grown ∙ sym (append_assoc t.front ((take r.limit (b ∷ bs), []) ∷ []) w);
        first = first_write o' t.front w (take r.limit (b ∷ bs)) [] t.grown;
      },
    )

send_packet-step :
    (en : Endian) (fuel : ℕ) (p : Packet) (bs : Bytes) (o o' : Outgoing) (count : ℕ)
    → serialize en p ≡ ok bs
    → send_on o.answers o.written bs p.fds ≡ (ok count, o')
    → send_packet en fuel p o ≡ send_loop fuel (drop count bs) o'
unfolding send_packet send_with_fds
send_packet-step en fuel p bs o o' count e f = rw e (rw f refl)

pub send_packet-serialize :
    (en : Endian) (p : Packet) (bs : Bytes) (fuel : ℕ) (o : Outgoing)
    → serialize en p ≡ ok bs
    → All IsAccepting o.answers
    → length bs ≤ fuel
    → length bs < acceptances o.answers
    → (o' : Outgoing) × (send_packet en fuel p o ≡ (ok tt, o')) × Sent o bs p.fds o'
send_packet-serialize en p bs fuel o e h f a =
    let r = send_on-Wrote o.answers o.written bs p.fds h (omega arith) in
    let d = drop-take r.limit bs in
    let l = length-drop r.limit bs in
    let (o', q, t) =
      send_loop_lem fuel (drop r.limit bs) r.rest ((take r.limit bs, p.fds) ∷ o.written) r.accepting
        (omega (arith, l)) (omega (arith, l, r.fewer)) in
    (
      o',
      send_packet-step en fuel p bs o
            (record { answers = r.rest; written = (take r.limit bs, p.fds) ∷ o.written }) _ e
            r.result
          ∙ ap
              (λ xs.
                send_loop fuel xs
                  (record { answers = r.rest; written = (take r.limit bs, p.fds) ∷ o.written }))
              d
          ∙ q,
      record {
        bytes =
            t.bytes
            ∙ append_assoc (stream o.written) (take r.limit bs) (drop r.limit bs)
            ∙ ap (λ xs. stream o.written ++ xs) (take-append-drop r.limit bs);
        descriptors = t.descriptors ∙ append-nil _;
        front = t.front ++ ((take r.limit bs, p.fds) ∷ []);
        grown = t.grown ∙ sym (append_assoc t.front ((take r.limit bs, p.fds) ∷ []) o.written);
        first = first_write o' t.front o.written (take r.limit bs) p.fds t.grown;
      },
    )
