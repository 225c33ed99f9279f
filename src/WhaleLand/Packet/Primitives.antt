-- ===== src/WhaleLand/Packet/Primitives.antt =====
-- What each read of packet.rs returns on the bytes that the matching push writes.
use one_true_pairing.Common.{
  ℕ, zero, suc, ◌+◌, ◌≤◌, ◌<◌, ◌^◌, ◌≡◌, refl, ap, ◌∙◌, true, false, some, List, [], ◌∷◌, ◌++◌,
  arith, ltb, le→ltb, ==_refl, length, take, drop, get_elem?, replicate, length-append,
  length-replicate, take-append, append_assoc,
}
use one_true_pairing.Common.Int.{ℤ, IsI32, i32_bits, i32_of_bits, i32_bits-lt, i32_of_bits-i32_bits}
use one_true_pairing.Common.Bytes.{
  Bytes, Endian, to_ne_bytes, from_ne_bytes, is_utf8, length-to_ne_bytes, from_ne_bytes-to_ne_bytes,
}
use one_true_pairing.WhaleLand.Error.{ObjectId, NewObject, IsObjectId, object_id_new, ok}
use one_true_pairing.WhaleLand.Exec.{pure, ◌>>=◌, ◌>>◌}
use one_true_pairing.WhaleLand.Fixed.{Fixed, inner_value, from_inner_value}
use one_true_pairing.WhaleLand.Packet.{RawFd, realign_count, contains_nul}
use one_true_pairing.WhaleLand.Packet.Reader.{
  advance, PacketReader, unread, peek_bytes, read_padded, read_fd, read_uint, read_int, read_fixed,
  read_str, read_array, read_object, read_new_id_known_interface, read_new_id_unknown_interface,
  position_nul, checked_str,
}
use one_true_pairing.WhaleLand.Packet.Rest.{
  Rest, Reads, Reads-bind, Reads-pure, moved, moved-Rest, peek_bytes_lem, length-Rest, take-Rest,
}

get_elem?-drop {ℓ} :
    {A : Type ℓ} (n : ℕ) (xs ys : List A) (x : A) → drop n xs ≡ x ∷ ys → get_elem? xs n ≡ some x
get_elem?-drop zero [] ys x h = cc
get_elem?-drop zero (z ∷ zs) ys x h = cc
get_elem?-drop (suc n) [] ys x h = cc
get_elem?-drop (suc n) (z ∷ zs) ys x h = get_elem?-drop n zs ys x h

drop-suc {ℓ} :
    {A : Type ℓ} (n : ℕ) (xs ys : List A) (x : A)
    → drop n xs ≡ x ∷ ys
    → (drop (n + 1) xs ≡ ys) × (n + 1 ≤ length xs)
drop-suc zero [] ys x h = ground arith
drop-suc zero (z ∷ zs) ys x h = ground arith
drop-suc (suc n) [] ys x h = ground arith
drop-suc (suc n) (z ∷ zs) ys x h = ground (arith, drop-suc n zs ys x h)

pub read_fd-Reads : (fd : RawFd) → Reads read_fd fd [] (fd ∷ [])
unfolding read_fd
read_fd-Reads fd = record {
  at = λ r bs fs h. (
    record r { fd_pos = r.fd_pos + 1 },
    rw (get_elem?-drop r.fd_pos r.packet.fds fs fd h.fds, read_fd),
    record {
      payload = h.payload;
      fds = (drop-suc r.fd_pos r.packet.fds fs fd h.fds).0;
      payload_bound = h.payload_bound;
      fd_bound = (drop-suc r.fd_pos r.packet.fds fs fd h.fds).1;
    },
  );
}

-- `read_padded` on `n` bytes and their padding, behind a four-byte length.
read_padded_lem :
    (r : PacketReader) (word xs pad bs : Bytes) (fs : List RawFd)
    → length word ≡ 4
    → length pad ≡ realign_count (length xs)
    → Rest r (word ++ ((xs ++ pad) ++ bs)) fs
    → (r' : PacketReader) × (read_padded (length xs) r ≡ (ok xs, r')) × Rest r' bs fs
unfolding read_padded
read_padded_lem r word xs pad bs fs e p h =
    (r2, rw (in_range, in_slice) (ap (λ ys. (ok ys, r2)) taken), last)
  where
    n : ℕ
    n = length xs + realign_count (length xs)

    r1 : PacketReader
    r1 = moved r 4

    r2 : PacketReader
    r2 = moved r1 n

    lens : length (xs ++ pad) ≡ n
    lens = omega (arith, length-append xs pad, p)

    past : Rest r1 ((xs ++ pad) ++ bs) fs
    past = moved-Rest word _ h 4 e

    last : Rest r2 bs fs
    last = moved-Rest (xs ++ pad) bs past n lens

    room : r.payload_pos + 4 + n ≤ length r.packet.payload
    room = omega (arith, length-Rest (xs ++ pad) bs past, lens)

    in_range : ltb (length r.packet.payload) (r.payload_pos + 4 + n) ≡ false
    in_range = le→ltb _ _ room

    in_slice : ltb (length r.packet.payload) (r.payload_pos + 4 + length xs) ≡ false
    in_slice = le→ltb _ _ (omega (arith, room))

    taken : take (length xs) (unread r1) ≡ xs
    taken = take-Rest xs (pad ++ bs) (rw append_assoc at past) (length xs) refl

position_nul-append :
    (xs : Bytes) → contains_nul xs ≡ false → position_nul (xs ++ (0 ∷ [])) ≡ some (length xs)
unfolding position_nul contains_nul
position_nul-append [] h = refl
position_nul-append (x ∷ xs) h = ground (arith, position_nul-append xs)

abbrev terminated : Bytes → Bytes
terminated xs = xs ++ (0 ∷ [])

-- A text of valid UTF-8 with no NUL, and its terminator, is accepted.
pub checked_str_lem :
    (xs : Bytes)
    → contains_nul xs ≡ false
    → is_utf8 xs ≡ true
    → checked_str (xs ++ (0 ∷ [])) ≡ ok xs
unfolding checked_str
checked_str_lem xs h u = go (xs ++ (0 ∷ [])) refl
  where
    go : (ys : Bytes) → ys ≡ xs ++ (0 ∷ []) → checked_str ys ≡ ok xs
    go [] e = absurd (omega (arith, ap length e, length-append xs (0 ∷ [])))
    go (y ∷ ys) e =
        let n : length ys ≡ length xs = omega (arith, ap length e, length-append xs (0 ∷ [])) in
        let p : position_nul (y ∷ ys) ≡ some (length ys) = rw (e, n) (position_nul-append xs h) in
        let q : take (length ys) (y ∷ ys) ≡ xs =
          rw (e, n) (take-append (length xs) xs (0 ∷ []) refl) in
        rw (p, ==_refl) (rw q (rw u))

module _ (en : Endian) where
  -- One word, with what is made of it.
  word-Reads :
      {A : Type 0} (g : ℕ → A) (w : ℕ) (a : A)
      → w < 2 ^ 32
      → g w ≡ a
      → Reads
          (do buf ← peek_bytes 4; advance 4; pure (g (from_ne_bytes en buf)))
          a
          (to_ne_bytes en w)
          []
  word-Reads g w a b e = record {
    at = λ r bs fs h. (
      moved r 4,
      rw (peek_bytes_lem (to_ne_bytes en w) bs h 4 (length-to_ne_bytes en w))
          (ap (λ v. (ok v, moved r 4)) (ap g (from_ne_bytes-to_ne_bytes en w b) ∙ e)),
      moved-Rest (to_ne_bytes en w) bs h 4 (length-to_ne_bytes en w),
    );
  }

  pub read_uint-Reads : (w : ℕ) → w < 2 ^ 32 → Reads (read_uint en) w (to_ne_bytes en w) []
  unfolding read_uint
  read_uint-Reads w b = word-Reads (λ v. v) w w b refl

  pub read_int-Reads : (z : ℤ) → IsI32 z → Reads (read_int en) z (to_ne_bytes en (i32_bits z)) []
  unfolding read_int
  read_int-Reads z b =
      word-Reads i32_of_bits (i32_bits z) z (i32_bits-lt z) (i32_of_bits-i32_bits z b)

  pub read_fixed-Reads :
      (f : Fixed)
      → IsI32 (inner_value f)
      → Reads (read_fixed en) f (to_ne_bytes en (i32_bits (inner_value f))) []
  unfolding read_fixed inner_value from_inner_value
  read_fixed-Reads f b =
      word-Reads (λ v. from_inner_value (i32_of_bits v)) (i32_bits f.inner) f (i32_bits-lt f.inner)
        (ap from_inner_value (i32_of_bits-i32_bits f.inner b))

  pub read_object-Reads :
      (w : ℕ) → w < 2 ^ 32 → Reads (read_object en) (object_id_new w) (to_ne_bytes en w) []
  unfolding read_object
  read_object-Reads w b = Reads-pure _ _ (read_uint-Reads w b) (λ r. refl)

  -- A length word, and as many bytes with their padding.
  padded-Reads :
      (xs pad : Bytes)
      → length xs < 2 ^ 32
      → length pad ≡ realign_count (length xs)
      → Reads (read_array en) xs (to_ne_bytes en (length xs) ++ (xs ++ pad)) []
  unfolding read_array
  padded-Reads xs pad b p = record {
    at = λ r bs fs h.
        let h' : Rest r (to_ne_bytes en (length xs) ++ ((xs ++ pad) ++ bs)) fs =
          rw append_assoc at h in
        rw (peek_bytes_lem _ _ h' 4 (length-to_ne_bytes en _)) (
          rw (from_ne_bytes-to_ne_bytes en (length xs) b) (
            read_padded_lem r (to_ne_bytes en (length xs)) xs pad bs fs (length-to_ne_bytes en _) p
              h'));
  }

  pub read_array-Reads :
      (xs : Bytes)
      → length xs < 2 ^ 32
      → Reads
          (read_array en)
          xs
          (to_ne_bytes en (length xs) ++ (xs ++ replicate (realign_count (length xs)) 0))
          []
  read_array-Reads xs b = padded-Reads xs _ b (length-replicate _ 0)

  pub read_str-Reads :
      (xs : Bytes)
      → length xs + 1 < 2 ^ 32
      → contains_nul xs ≡ false
      → is_utf8 xs ≡ true
      → Reads
          (read_str en)
          xs
          (to_ne_bytes en (length xs + 1)
            ++ (xs ++ (0 ∷ replicate (realign_count (length xs + 1)) 0)))
          []
  unfolding read_str read_array
  read_str-Reads xs b n u = record {
    at = λ r bs fs h.
        let h' : Rest r
            (to_ne_bytes en (length (terminated xs))
              ++ ((terminated xs ++ replicate (realign_count (length (terminated xs))) 0) ++ bs))
            fs =
          rw (length-append, append_assoc xs (0 ∷ []) _) (rw append_assoc at h) in
        let (r2, e2, h2) =
          read_padded_lem r (to_ne_bytes en (length (terminated xs))) (terminated xs)
            (replicate (realign_count (length (terminated xs))) 0) bs fs (length-to_ne_bytes en _)
            (length-replicate _ 0) h' in
        (
          r2,
          rw (peek_bytes_lem _ _ h' 4 (length-to_ne_bytes en _)) (
              rw (from_ne_bytes-to_ne_bytes en (length (terminated xs)) (rw length-append b))
                (rw e2 (ap (λ o. (o, r2)) (checked_str_lem xs n u)))),
          h2,
        );
  }

  pub read_new_id_known-Reads :
      (oid : ObjectId)
      → IsObjectId oid
      → Reads (read_new_id_known_interface en) oid (to_ne_bytes en oid) []
  unfolding read_new_id_known_interface object_id_new
  read_new_id_known-Reads oid b = Reads-pure _ _ (read_object-Reads oid b.1) (λ r. ground arith)

  pub read_new_id_unknown-Reads :
      (o : NewObject)
      → length o.interface + 1 < 2 ^ 32
      → contains_nul o.interface ≡ false
      → is_utf8 o.interface ≡ true
      → o.interface_version < 2 ^ 32
      → IsObjectId o.object_id
      → Reads
          (read_new_id_unknown_interface en)
          o
          ((to_ne_bytes en (length o.interface + 1)
              ++ (o.interface ++ (0 ∷ replicate (realign_count (length o.interface + 1)) 0)))
            ++ (to_ne_bytes en o.interface_version ++ to_ne_bytes en o.object_id))
          []
  unfolding read_new_id_unknown_interface object_id_new
  read_new_id_unknown-Reads o b n u v i =
      Reads-bind (read_str en) _ (read_str-Reads o.interface b n u) (
        Reads-bind (read_uint en) _ (read_uint-Reads o.interface_version v)
          (Reads-pure (read_object en) _ (read_object-Reads o.object_id i.1) (λ r. ground arith)))
