-- ===== src/Wlproto/Generate/Handlers.antt =====
-- wlproto/src/output.rs: the code that is generated for any protocol, when it runs.
use one_true_pairing.Common.{
  ℕ, zero, suc, ◌+◌, ◌≡◌, refl, ap, ◌∙◌, some, List, [], ◌∷◌, map, arith, get_elem?,
}
use mathlib.Core.Option.{some-injective}
use one_true_pairing.Common.Bytes.{Endian}
use one_true_pairing.Wlproto.Model.{Procedure, Interface}
use one_true_pairing.Wlproto.Output.{field_of}
use one_true_pairing.Wlproto.Generate.{message_of, messages_from, event_messages}
use one_true_pairing.WhaleLand.Error.{ObjectId, ok}
use one_true_pairing.WhaleLand.Protocol.{Value, handled, handle_event}
use one_true_pairing.WhaleLand.Protocol.Encoding.{AllFit}
use one_true_pairing.WhaleLand.Protocol.RoundTrip.{wire}
use one_true_pairing.WhaleLand.Protocol.Interfaces.{IsNumbered}
use one_true_pairing.WhaleLand.Protocol.Events.{handle_event-wire}

pub messages_from-IsNumbered : (n : ℕ) (ps : List Procedure) → IsNumbered n (messages_from n ps)
unfolding messages_from message_of
messages_from-IsNumbered n [] = tt
messages_from-IsNumbered n (p ∷ ps) = (refl, messages_from-IsNumbered (suc n) ps)

get_elem?-messages_from :
    (n : ℕ) (ps : List Procedure) (k : ℕ) (p : Procedure)
    → get_elem? ps k ≡ some p
    → get_elem? (messages_from n ps) k ≡ some (message_of (n + k) p)
unfolding messages_from
get_elem?-messages_from n [] k p e = ground (arith, e)
get_elem?-messages_from n (q ∷ ps) zero p e =
    ap some
      (ap (λ x. message_of x q) (omega arith) ∙ ap (message_of (n + 0)) (some-injective q p e))
get_elem?-messages_from n (q ∷ ps) (suc k) p e =
    get_elem?-messages_from (suc n) ps k p e ∙ ap (λ x. some (message_of x p)) (omega arith)

-- For every interface, the dispatch that is generated hands the packet of its k-th event to the
-- k-th handler, with the arguments that were written, provided they fit.
pub handle_event-event_messages :
    (en : Endian) (i : Interface) (k : ℕ) (p : Procedure) (vs : List Value) (object_id : ObjectId)
    → get_elem? i.events k ≡ some p
    → AllFit (map field_of p.args) vs
    → handle_event en (event_messages i) (wire en k vs object_id) ≡ ok (handled k vs)
unfolding message_of
handle_event-event_messages en i k p vs object_id e f =
    handle_event-wire en (event_messages i) k (message_of (0 + k) p) vs object_id
      (messages_from-IsNumbered 0 i.events) (get_elem?-messages_from 0 i.events k p e) f
