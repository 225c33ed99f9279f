-- ===== src/WhaleLand/Socket/Refinement.antt =====
-- socket-fd-ext/src/lib.rs: the calls with control messages implement those with file descriptors.
use one_true_pairing.Common.{
  ℕ, ◌+◌, ◌-◌, ◌*◌, ◌/◌, ◌^◌, ◌<◌, ◌≡◌, refl, ap, ◌∙◌, Bool, true, false, ◌&&◌, some, List, [], ◌∷◌,
  ◌++◌, map, append-nil, append_assoc, arith, ltb, ◌==◌, if◌then◌else◌, length, take, drop, All,
  take-append, drop-append, length-append, length-replicate, ==_refl, lt→ltb, le→ltb,
}
use one_true_pairing.Common.Bytes.{
  Bytes, Endian, to_ne_bytes, length-to_ne_bytes, from_ne_bytes-to_ne_bytes,
}
use one_true_pairing.WhaleLand.Error.{io, Result, ok, err, hang}
use one_true_pairing.WhaleLand.Packet.{RawFd}
use one_true_pairing.WhaleLand.Socket.{Acceptance, Arrival, recv_with_fds, send_on, send_with_fds}
use one_true_pairing.WhaleLand.Socket.Messages.{
  Libc, ControlMessage, Control, Reception, fd_size, slice_bytes, assemble, fd_buf, message_fds,
  find_fds, sendmsg_loop, sendmsg_with_fds, recvmsg_with_fds,
}

map-if :
    {A B : Type 0} (f : A → B) (b : Bool) (xs ys : List A)
    → (if b then map f xs else map f ys) ≡ map f (if b then xs else ys)
map-if f true xs ys = refl
map-if f false xs ys = refl

-- A control message is one with file descriptors, or of another kind.
pub data Item : Type 0 where
  rights : List RawFd → Item
  other : ControlMessage → Item

-- A `c_int` has four bytes.
abbrev pub IsWord : RawFd → Type 0
IsWord fd = fd < 2 ^ 32

abbrev pub item_fds : Item → List RawFd
item_fds (rights fds) = fds
item_fds (other m) = []

abbrev pub items_fds : List Item → List RawFd
items_fds [] = []
items_fds (i ∷ is) = item_fds i ++ items_fds is

-- What the operating system answers to a read, with its control messages as items.
pub data Answer : Type 0 where
  would_block : Answer
  failed : ℕ → Answer
  arrived : Bytes → List Item → Answer

abbrev pub arrival : Answer → Arrival
arrival would_block = Arrival.would_block
arrival (failed e) = Arrival.failed e
arrival (arrived bs is) = Arrival.arrived bs (items_fds is)

abbrev pub write_fds : Bytes × List Item → Bytes × List RawFd
write_fds (bs, is) = (bs, items_fds is)

module _ (libc : Libc) (en : Endian) where
  -- A message that is not `SCM_RIGHTS` of `SOL_SOCKET`.
  abbrev pub IsItem : Item → Type 0
  IsItem (rights fds) = All IsWord fds × (libc.cmsg_len 0 + length fds * fd_size < 2 ^ 32)
  IsItem (other m) = (m.cmsg_level == libc.sol_socket && m.cmsg_type == libc.scm_rights) ≡ false

  abbrev pub IsAnswer : Answer → Type 0
  IsAnswer (arrived bs is) = All IsItem is
  IsAnswer _ = Unit

  -- The bytes of an item, as unix(7) and cmsg(3) describe them.
  abbrev pub control : Item → ControlMessage
  control (rights fds) = record {
    cmsg_level = libc.sol_socket;
    cmsg_type = libc.scm_rights;
    cmsg_len = libc.cmsg_len (length fds * fd_size);
    cmsg_data = slice_bytes libc en fds;
  }
  control (other m) = m

  abbrev pub message : Answer → Reception
  message would_block = Reception.would_block
  message (failed e) = Reception.failed e
  message (arrived bs is) = Reception.arrived bs (map control is)

  -- The length of the buffer, which cmsg(3) wants to be the sum of `CMSG_SPACE` of the data.
  abbrev pub item_space : Item → ℕ
  item_space (rights fds) = libc.cmsg_space (length fds * fd_size)
  item_space (other m) = libc.cmsg_space (length m.cmsg_data)

  abbrev pub items_space : List Item → ℕ
  items_space [] = 0
  items_space (i ∷ is) = item_space i + items_space is

  abbrev pub write_control : Bytes × List Item → Bytes × Control
  write_control (bs, is) =
      (bs, record { msg_control = map control is; msg_controllen = items_space is })

  length-slice_bytes : (fds : List RawFd) → length (slice_bytes libc en fds) ≡ length fds * fd_size
  unfolding slice_bytes
  length-slice_bytes [] = refl
  length-slice_bytes (fd ∷ fds) = omega (
    arith,
    length-append (to_ne_bytes en fd) (slice_bytes libc en fds),
    length-to_ne_bytes en fd,
    length-slice_bytes fds,
  )

  fd_buf-slice_bytes :
      (fds : List RawFd)
      → All IsWord fds
      → fd_buf libc en (length fds) (slice_bytes libc en fds) ≡ fds
  unfolding fd_buf slice_bytes
  fd_buf-slice_bytes [] h = refl
  fd_buf-slice_bytes (fd ∷ fds) h = rw (
    take-append 4 (to_ne_bytes en fd) (slice_bytes libc en fds) (length-to_ne_bytes en fd),
    drop-append 4 (to_ne_bytes en fd) (slice_bytes libc en fds) (length-to_ne_bytes en fd),
    from_ne_bytes-to_ne_bytes en fd h.0,
    fd_buf-slice_bytes fds h.1,
  )

  message_fds-control : (i : Item) → IsItem i → message_fds libc en (control i) ≡ some (item_fds i)
  unfolding message_fds
  message_fds-control (rights fds) h =
      let len = libc.cmsg_len_header (length fds * fd_size) h.1 in
      let long : ltb (libc.cmsg_len (length fds * fd_size)) (libc.cmsg_len 0) ≡ false =
        le→ltb _ _ (omega (arith, len)) in
      let count : (libc.cmsg_len (length fds * fd_size) - libc.cmsg_len 0) / fd_size ≡ length fds =
        omega (arith, len) in
      rw (==_refl libc.sol_socket, ==_refl libc.scm_rights, long, count, fd_buf-slice_bytes fds h.0)
  message_fds-control (other m) h = rw h

  find_fds-control :
      (is : List Item) (fds : List RawFd)
      → All IsItem is
      → find_fds libc en (map control is) fds ≡ some (fds ++ items_fds is)
  unfolding find_fds
  find_fds-control [] fds h = rw (append-nil fds)
  find_fds-control (i ∷ is) fds h =
      rw (message_fds-control i h.0, find_fds)
        (find_fds-control is (fds ++ item_fds i) h.1
          ∙ ap some (append_assoc fds (item_fds i) (items_fds is)))

  assemble-control :
      (fds : List RawFd)
      → length fds * fd_size < 2 ^ 32
      → assemble libc en fds ≡ ok (control (rights fds), libc.cmsg_space (length fds * fd_size))
  unfolding assemble slice_bytes
  assemble-control [] h = refl
  assemble-control (fd ∷ fds) h = rw (
    lt→ltb (length (fd ∷ fds) * fd_size) (2 ^ 32) h,
    length-replicate {A = ℕ} (length (fd ∷ fds) * fd_size) 0,
    ==_refl (length (fd ∷ fds) * fd_size),
  )

  space_of_one : (i : Item) → item_space i ≡ items_space (i ∷ [])
  space_of_one i = omega arith

  -- `sendmsg` with items takes what the calls with file descriptors take.
  sendmsg_loop-send_on :
      (s : List Acceptance) (w : List (Bytes × List Item)) (bs : Bytes) (i : Item)
      → (r : Result ℕ) × (s' : List Acceptance) × (w' : List (Bytes × List Item)) × (sendmsg_loop s
            (map write_control w)
            bs
            (record { msg_control = control i ∷ []; msg_controllen = item_space i })
          ≡ (r, record { answers = s'; written = map write_control w' }))
        × (send_on s (map write_fds w) bs (item_fds i)
            ≡ (r, record { answers = s'; written = map write_fds w' }))
  unfolding sendmsg_loop send_on
  sendmsg_loop-send_on [] w bs i = (hang, [], w, refl, refl)
  sendmsg_loop-send_on (Acceptance.would_block ∷ s) w bs i = sendmsg_loop-send_on s w bs i
  sendmsg_loop-send_on (Acceptance.failed e ∷ s) w bs i = (err (io e), s, w, refl, refl)
  sendmsg_loop-send_on (Acceptance.accepts n ∷ s) w bs i = (
    ok (length (take n bs)),
    s,
    (take n bs, i ∷ []) ∷ w,
    ap
        (λ x. (
          ok (length (take n bs)),
          record {
            answers = s;
            written =
                (take n bs, record { msg_control = control i ∷ []; msg_controllen = x })
                ∷ map write_control w;
          },
        ))
        (space_of_one i),
    rw (append-nil (item_fds i)),
  )

  -- The message that send_with_fds assembles for sendmsg is one with exactly the given file
  -- descriptors, in a buffer whose length is CMSG_SPACE of their bytes, and its bytes go out as
  -- the call with file descriptors has it, with the same outcome, as long as the length of the
  -- file descriptors in bytes is a c_uint.
  pub sendmsg_with_fds-send_with_fds :
      (bs : Bytes) (fds : List RawFd) (s : List Acceptance) (w : List (Bytes × List Item))
      → length fds * fd_size < 2 ^ 32
      → (r : Result ℕ) × (s' : List Acceptance) × (w' : List (Bytes × List Item))
        × (sendmsg_with_fds libc en bs fds (record { answers = s; written = map write_control w })
            ≡ (r, record { answers = s'; written = map write_control w' }))
        × (send_with_fds bs fds (record { answers = s; written = map write_fds w })
            ≡ (r, record { answers = s'; written = map write_fds w' }))
  unfolding sendmsg_with_fds send_with_fds
  sendmsg_with_fds-send_with_fds bs fds s w h =
      rw (assemble-control fds h, sendmsg_with_fds) (sendmsg_loop-send_on s w bs (rights fds))

  -- However many control messages of whatever kinds come with the bytes, the search of
  -- recv_with_fds finds exactly the file descriptors of those that carry some, in order, and the
  -- call returns and leaves what the call with file descriptors does, where each file descriptor
  -- is a u32 as a word and the length of each message that carries some is a c_uint.
  pub recvmsg_with_fds-recv_with_fds :
      (cap : ℕ) (s : List Answer)
      → All IsAnswer s
      → (r : Result (Bytes × List RawFd)) × (s' : List Answer) × (recvmsg_with_fds libc en cap
            (map message s)
          ≡ (r, map message s'))
        × (recv_with_fds cap (map arrival s) ≡ (r, map arrival s'))
  unfolding recvmsg_with_fds recv_with_fds
  recvmsg_with_fds-recv_with_fds n [] h = (ok ([], []), [], refl, refl)
  recvmsg_with_fds-recv_with_fds n (would_block ∷ s) h = recvmsg_with_fds-recv_with_fds n s h.1
  recvmsg_with_fds-recv_with_fds n (failed e ∷ s) h = (err (io e), s, refl, refl)
  recvmsg_with_fds-recv_with_fds n (arrived bs is ∷ s) h = (
    ok (take n bs, items_fds is),
    (if ltb n (length bs) then arrived (drop n bs) [] ∷ s else s),
    rw (find_fds-control is [] h.0, recvmsg_with_fds)
        (ap (λ x. (ok (take n bs, items_fds is), x))
          (map-if message (ltb n (length bs)) (arrived (drop n bs) [] ∷ s) s)),
    ap (λ x. (ok (take n bs, items_fds is), x))
        (map-if arrival (ltb n (length bs)) (arrived (drop n bs) [] ∷ s) s),
  )
