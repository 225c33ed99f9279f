-- ===== src/WhaleLand/Connection/Receive.antt =====
-- connection.rs, the receiving loop: however the bytes are cut on the way, the loop collects
-- exactly as many as it wants.
use one_true_pairing.Common.{
  ℕ, zero, suc, ◌+◌, ◌-◌, ◌≤◌, ◌<◌, ◌≡◌, refl, sym, ap, ◌∙◌, inl, inr, List, [], ◌∷◌, ◌++◌,
  append-nil, append_assoc, arith, ltb, ltb→lt, le→ltb, ltb-false→le, Bool-cases, if◌then◌else◌,
  length, take, drop, All, length-append, length-take, length-drop, take-append-drop, take-all,
}
use one_true_pairing.Common.Bytes.{Bytes}
use one_true_pairing.WhaleLand.Error.{ok}
use one_true_pairing.WhaleLand.Packet.{RawFd}
use one_true_pairing.WhaleLand.Socket.{Arrival, would_block, failed, arrived, recv_with_fds, recv}
use one_true_pairing.WhaleLand.Connection.{recv_loop, recv_exact}

-- All that is still to arrive.
abbrev pub content : List Arrival → Bytes
content [] = []
content (would_block ∷ s) = content s
content (failed e ∷ s) = content s
content (arrived bs fds ∷ s) = bs ++ content s

-- The file descriptors that come with the first bytes.
abbrev pub first_fds : List Arrival → List RawFd
first_fds [] = []
first_fds (would_block ∷ s) = first_fds s
first_fds (failed e ∷ s) = first_fds s
first_fds (arrived bs fds ∷ s) = fds

-- No error, and no answer of no bytes.
abbrev pub IsFlowing : Arrival → Type 0
IsFlowing would_block = Unit
IsFlowing (failed e) = ⊥
IsFlowing (arrived bs fds) = 0 < length bs

-- A read took `xs` from the front of `s` and left `s'`.
pub record Took (s : List Arrival) (xs : Bytes) (s' : List Arrival) : Type 0 where
  pub flowing : All IsFlowing s'
  pub content_eq : content s ≡ xs ++ content s'

pub length-Took :
    (s s' : List Arrival) (xs : Bytes)
    → Took s xs s'
    → length (content s) ≡ length xs + length (content s')
length-Took s s' xs t = ap length t.content_eq ∙ length-append xs (content s')

pub Took-trans :
    (s s1 s2 : List Arrival) (xs ys : Bytes) → Took s xs s1 → Took s1 ys s2 → Took s (xs ++ ys) s2
Took-trans s s1 s2 xs ys t u = record {
  flowing = u.flowing;
  content_eq =
      t.content_eq ∙ ap (λ zs. xs ++ zs) u.content_eq ∙ sym (append_assoc xs ys (content s2));
}

abbrev after : ℕ → Bytes → List Arrival → List Arrival
after cap bs s = if ltb cap (length bs) then arrived (drop cap bs) [] ∷ s else s

after-Took :
    (cap : ℕ) (bs : Bytes) (fds : List RawFd) (s : List Arrival)
    → All IsFlowing s
    → Took (arrived bs fds ∷ s) (take cap bs) (after cap bs s)
after-Took cap bs fds s f = elim (Bool-cases (ltb cap (length bs))) [
  | inl more ↦ rw more (record {
    flowing = (omega (arith, length-drop cap bs, ltb→lt cap (length bs) more), f);
    content_eq =
        sym (ap (λ ys. ys ++ content s) (take-append-drop cap bs))
        ∙ append_assoc (take cap bs) (drop cap bs) (content s);
  })
  | inr all ↦ rw all (record {
    flowing = f;
    content_eq =
        ap (λ ys. ys ++ content s) (sym (take-all cap bs (ltb-false→le cap (length bs) all)));
  })
]

pub recv_lem :
    (cap : ℕ) (s : List Arrival)
    → 0 < cap
    → All IsFlowing s
    → 0 < length (content s)
    → (xs : Bytes) × (s' : List Arrival) × (recv cap s ≡ (ok xs, s'))
      × Took s xs s'
      × (0 < length xs)
      × (length xs ≤ cap)
unfolding recv
recv_lem zero s c f h = absurd (omega arith)
recv_lem (suc cap) [] c f h = absurd (omega arith)
recv_lem (suc cap) (would_block ∷ s) c f h =
    let (xs, s', e, t, p, q) = recv_lem (suc cap) s c f.1 h in
    (xs, s', e, record { flowing = t.flowing; content_eq = t.content_eq }, p, q)
recv_lem (suc cap) (failed e ∷ s) c f h = absurd f.0
recv_lem (suc cap) (arrived bs fds ∷ s) c f h = (
  take (suc cap) bs,
  after (suc cap) bs s,
  refl,
  after-Took (suc cap) bs fds s f.1,
  omega (arith, length-take (suc cap) bs, f.0),
  omega (arith, length-take (suc cap) bs),
)

pub recv_with_fds_lem :
    (cap : ℕ) (s : List Arrival)
    → 0 < cap
    → All IsFlowing s
    → 0 < length (content s)
    → (xs : Bytes) × (s' : List Arrival) × (recv_with_fds cap s ≡ (ok (xs, first_fds s), s'))
      × Took s xs s'
      × (length xs ≤ cap)
unfolding recv_with_fds
recv_with_fds_lem cap [] c f h = absurd (omega arith)
recv_with_fds_lem cap (would_block ∷ s) c f h =
    let (xs, s', e, t, q) = recv_with_fds_lem cap s c f.1 h in
    (xs, s', e, record { flowing = t.flowing; content_eq = t.content_eq }, q)
recv_with_fds_lem cap (failed e ∷ s) c f h = absurd f.0
recv_with_fds_lem cap (arrived bs fds ∷ s) c f h = (
  take cap bs,
  after cap bs s,
  refl,
  after-Took cap bs fds s f.1,
  omega (arith, length-take cap bs),
)

pub recv_loop_lem :
    (fuel n : ℕ) (acc : Bytes) (s : List Arrival)
    → All IsFlowing s
    → length acc ≤ n
    → n ≤ length acc + length (content s)
    → n ≤ length acc + fuel
    → (ys : Bytes) × (s' : List Arrival) × (recv_loop fuel n acc s ≡ (ok (acc ++ ys), s'))
      × Took s ys s'
      × (length acc + length ys ≡ n)
unfolding recv_loop
recv_loop_lem zero n acc s f a b c = (
  [],
  s,
  rw (le→ltb (length acc) n (omega arith)) (ap (λ ys. (ok ys, s)) (sym (append-nil acc))),
  record { flowing = f; content_eq = refl },
  omega arith,
)
recv_loop_lem (suc fuel) n acc s f a b c = elim (Bool-cases (ltb (length acc) n)) [
  | inr done ↦ (
    [],
    s,
    rw (done, recv_loop) (ap (λ ys. (ok ys, s)) (sym (append-nil acc))),
    record { flowing = f; content_eq = refl },
    omega (arith, ltb-false→le (length acc) n done),
  )
  | inl more ↦
      let room = ltb→lt (length acc) n more in
      let (xs, s1, e1, t1, p1, q1) = recv_lem (n - length acc) s (omega arith) f (omega arith) in
      let grown = length-append acc xs in
      let left = length-Took s s1 xs t1 in
      let (ys, s2, e2, t2, p2) =
        recv_loop_lem fuel n (acc ++ xs) s1 t1.flowing (omega arith) (omega arith) (omega arith) in
      (
        xs ++ ys,
        s2,
        rw (more, recv_loop) (rw e1 (rw (← append_assoc) e2)),
        Took-trans s s1 s2 xs ys t1 t2,
        omega (arith, length-append xs ys),
      )
]

-- As many bytes as are asked for, if as many are still to come.
pub recv_exact_lem :
    (fuel n : ℕ) (s : List Arrival)
    → All IsFlowing s
    → n ≤ length (content s)
    → n ≤ fuel
    → (xs : Bytes) × (s' : List Arrival) × (recv_exact fuel n s ≡ (ok xs, s'))
      × Took s xs s'
      × (length xs ≡ n)
unfolding recv_exact recv
recv_exact_lem fuel zero s f h k =
    let (ys, s', e, t, q) = recv_loop_lem fuel 0 [] s f (omega arith) (omega arith) (omega arith) in
    (ys, s', e, t, omega arith)
recv_exact_lem fuel (suc n) s f h k =
    let (xs, s1, e1, t1, _, q1) = recv_lem (suc n) s (omega arith) f (omega arith) in
    let left = length-Took s s1 xs t1 in
    let (ys, s2, e2, t2, q2) =
      recv_loop_lem fuel (suc n) xs s1 t1.flowing q1 (omega arith) (omega arith) in
    (xs ++ ys, s2, rw e1 e2, Took-trans s s1 s2 xs ys t1 t2, omega (arith, length-append xs ys))
