-- ===== src/WhaleLand/Protocol/Events.antt =====
-- The generated `handle_event`: which handler an event goes to, and with which arguments.
use one_true_pairing.Common.{
  ℕ, zero, suc, ◌+◌, ◌≤◌, ◌≡◌, refl, ap, subst, ◌∙◌, true, false, some, List, [], ◌∷◌, arith, ◌==◌,
  length, get_elem?,
}
use mathlib.Core.Option.{some-injective}
use one_true_pairing.Common.Bytes.{Endian}
use one_true_pairing.WhaleLand.Error.{ObjectId, Result, ok, ◌>>=◌}
use one_true_pairing.WhaleLand.Packet.{Packet}
use one_true_pairing.WhaleLand.Protocol.{
  Value, Message, Handled, handled, unknown_event, try_from_packet, handle_event,
}
use one_true_pairing.WhaleLand.Protocol.Encoding.{AllFit}
use one_true_pairing.WhaleLand.Protocol.RoundTrip.{wire, try_from_packet-wire}
use one_true_pairing.WhaleLand.Protocol.Interfaces.{IsNumbered}

opcode_from :
    (n : ℕ) (ms : List Message) (i : ℕ) (m : Message)
    → IsNumbered n ms
    → get_elem? ms i ≡ some m
    → m.opcode ≡ n + i
opcode_from n [] i m h g = ground (arith, g)
opcode_from n (k ∷ ms) zero m h g = omega (arith, h.0, ap (λ x. x.opcode) (some-injective k m g))
opcode_from n (k ∷ ms) (suc i) m h g = omega (arith, opcode_from (suc n) ms i m h.1 g)

pub opcode-get_elem? :
    (ms : List Message) (i : ℕ) (m : Message)
    → IsNumbered 0 ms
    → get_elem? ms i ≡ some m
    → m.opcode ≡ i
opcode-get_elem? ms i m h g = omega (arith, opcode_from 0 ms i m h g)

module _ (en : Endian) where
  -- The arguments for the handler of an event.
  abbrev decoded : Message → Packet → Result Handled
  decoded m p = do vs ← try_from_packet en m.fields p; ok (handled m.opcode vs)

  handle_event-at :
      (n : ℕ) (ms : List Message) (i : ℕ) (m : Message) (p : Packet)
      → IsNumbered n ms
      → get_elem? ms i ≡ some m
      → p.opcode ≡ n + i
      → handle_event en ms p ≡ decoded m p
  unfolding handle_event
  handle_event-at n [] i m p h g e = ground (arith, g)
  handle_event-at n (k ∷ ms) zero m p h g e =
      subst (λ m'. handle_event en (k ∷ ms) p ≡ decoded m' p) (some-injective k m g) (rw c refl)
    where
      c : (p.opcode == k.opcode) ≡ true
      c = ground (arith, h.0, e)
  handle_event-at n (k ∷ ms) (suc i) m p h g e =
      rw c (handle_event-at (suc n) ms i m p h.1 g (omega (arith, e)))
    where
      c : (p.opcode == k.opcode) ≡ false
      c = ground (arith, h.0, e)

  -- Above the last opcode there is no event.
  handle_event-above :
      (n : ℕ) (ms : List Message) (p : Packet)
      → IsNumbered n ms
      → n + length ms ≤ p.opcode
      → handle_event en ms p ≡ ok unknown_event
  unfolding handle_event
  handle_event-above n [] p h l = refl
  handle_event-above n (m ∷ ms) p h l = ground (arith, handle_event-above (suc n) ms p h.1)

  -- For messages that are numbered in order, the packet of the i-th one goes to the i-th handler
  -- of the generated dispatch, with the arguments that were written, provided they fit.
  pub handle_event-wire :
      (ms : List Message) (i : ℕ) (m : Message) (vs : List Value) (object_id : ObjectId)
      → IsNumbered 0 ms
      → get_elem? ms i ≡ some m
      → AllFit m.fields vs
      → handle_event en ms (wire en i vs object_id) ≡ ok (handled i vs)
  handle_event-wire ms i m vs object_id h g f =
      handle_event-at 0 ms i m (wire en i vs object_id) h g (omega arith)
      ∙ ap (λ r. r >>= λ ws. ok (handled m.opcode ws))
          (try_from_packet-wire en i m.fields vs object_id f)
      ∙ ap (λ k. ok (handled k vs)) (opcode-get_elem? ms i m h g)
