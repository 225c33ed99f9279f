-- ===== src/WhaleLand/Packet/Rest.antt =====
-- What a reader of packet.rs has left to read, and the rules by which reads take from the front
-- of it.
use one_true_pairing.Common.{
  ℕ, ◌+◌, ◌≤◌, ◌≡◌, ap, ◌∙◌, List, ◌++◌, arith, le→ltb, length, take, drop, length-append,
  length-drop, take-append, drop-append, drop-drop, append_assoc,
}
use one_true_pairing.Common.Bytes.{Bytes}
use one_true_pairing.WhaleLand.Error.{ok}
use one_true_pairing.WhaleLand.Exec.{Exec, ◌>>=◌}
use one_true_pairing.WhaleLand.Packet.{RawFd}
use one_true_pairing.WhaleLand.Packet.Reader.{PacketReader, unread, peek_bytes}

-- The payload bytes `bs` and the file descriptors `fs` are left.
pub record Rest (r : PacketReader) (bs : Bytes) (fs : List RawFd) : Type 0 where
  pub payload : drop r.payload_pos r.packet.payload ≡ bs
  pub fds : drop r.fd_pos r.packet.fds ≡ fs
  pub payload_bound : r.payload_pos ≤ length r.packet.payload
  pub fd_bound : r.fd_pos ≤ length r.packet.fds

-- The reader with its payload cursor moved on.
abbrev pub moved : PacketReader → ℕ → PacketReader
moved r n = record r { payload_pos = r.payload_pos + n }

module _ {r : PacketReader} {fs : List RawFd} (xs bs : Bytes) (h : Rest r (xs ++ bs) fs) where
  pub length-Rest : r.payload_pos + length xs + length bs ≡ length r.packet.payload
  length-Rest = omega (
    arith,
    length-drop r.payload_pos r.packet.payload,
    ap length h.payload,
    length-append xs bs,
    h.payload_bound,
  )

  pub moved-Rest : (n : ℕ) → length xs ≡ n → Rest (moved r n) bs fs
  moved-Rest n e = record {
    payload =
        drop-drop r.payload_pos n r.packet.payload ∙ ap (drop n) h.payload ∙ drop-append n xs bs e;
    fds = h.fds;
    payload_bound = omega (arith, length-Rest);
    fd_bound = h.fd_bound;
  }

  pub take-Rest : (n : ℕ) → length xs ≡ n → take n (unread r) ≡ xs
  take-Rest n e = ap (take n) h.payload ∙ take-append n xs bs e

  pub peek_bytes_lem : (n : ℕ) → length xs ≡ n → peek_bytes n r ≡ (ok xs, r)
  unfolding peek_bytes
  peek_bytes_lem n e =
      rw (le→ltb (length r.packet.payload) (r.payload_pos + n) (omega (arith, length-Rest)))
        (ap (λ ys. (ok ys, r)) (take-Rest n e))

-- `m` takes `xs` and `gs` from the front of what is left, and returns `a`.
pub record Reads {A : Type 0} (m : Exec PacketReader A) (a : A) (xs : Bytes) (gs : List RawFd)
    : Type 0 where
  pub at :
      (r : PacketReader) (bs : Bytes) (fs : List RawFd)
      → Rest r (xs ++ bs) (gs ++ fs)
      → (r' : PacketReader) × (m r ≡ (ok a, r')) × Rest r' bs fs

module _ {A B : Type 0} {a : A} {b : B} {xs ys : Bytes} {gs hs : List RawFd} where
  pub Reads-bind :
      (m : Exec PacketReader A) (f : A → Exec PacketReader B)
      → Reads m a xs gs
      → Reads (f a) b ys hs
      → Reads (m >>= f) b (xs ++ ys) (gs ++ hs)
  Reads-bind m f p q = record {
    at = λ r bs fs h.
        let (r1, e1, h1) =
          p.at r (ys ++ bs) (hs ++ fs) (rw (append_assoc xs ys bs, append_assoc gs hs fs) at h) in
        let (r2, e2, h2) = q.at r1 bs fs h1 in (r2, rw e1 e2, h2);
  }

module _ {A B : Type 0} {a : A} {b : B} {xs : Bytes} {gs : List RawFd} where
  -- The rest of the block only computes with the value.
  pub Reads-pure :
      (m : Exec PacketReader A) (f : A → Exec PacketReader B)
      → Reads m a xs gs
      → ((r : PacketReader) → f a r ≡ (ok b, r))
      → Reads (m >>= f) b xs gs
  Reads-pure m f p q = record {
    at = λ r bs fs h. let (r1, e1, h1) = p.at r bs fs h in (r1, rw e1 (q r1), h1);
  }
