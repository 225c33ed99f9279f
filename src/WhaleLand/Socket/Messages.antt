-- ===== src/WhaleLand/Socket/Messages.antt =====
-- socket-fd-ext/src/lib.rs: the control messages that carry file descriptors. The macros and the
-- constants of the libc crate are a record; a file descriptor is a `c_int` of four bytes.
use one_true_pairing.Common.{
  ℕ, zero, suc, ◌+◌, ◌-◌, ◌*◌, ◌/◌, ◌^◌, ◌<◌, ◌≡◌, ◌&&◌, Option, none, some, List, [], ◌∷◌, ◌++◌,
  ltb, ◌==◌, if◌then◌else◌, length, take, drop, replicate,
}
use one_true_pairing.Common.Bytes.{Bytes, Endian, to_ne_bytes, from_ne_bytes}
use one_true_pairing.WhaleLand.Error.{io, Result, ok, err, panic, hang}
use one_true_pairing.WhaleLand.Exec.{Exec}
use one_true_pairing.WhaleLand.Packet.{RawFd}
use one_true_pairing.WhaleLand.Socket.{Acceptance}

-- `SOL_SOCKET`, `SCM_RIGHTS`, `CMSG_LEN` and `CMSG_SPACE`, with what cmsg(3) says of them: a
-- message is its header and its data, as long as that is a `c_uint`.
pub record Libc : Type 0 where
  pub sol_socket : ℕ
  pub scm_rights : ℕ
  pub cmsg_len : ℕ → ℕ
  pub cmsg_space : ℕ → ℕ
  pub cmsg_len_header : (n : ℕ) → cmsg_len 0 + n < 2 ^ 32 → cmsg_len n ≡ cmsg_len 0 + n

-- A `cmsghdr` with the data that `CMSG_DATA` points to.
pub record ControlMessage : Type 0 where
  pub cmsg_level : ℕ
  pub cmsg_type : ℕ
  pub cmsg_len : ℕ
  pub cmsg_data : Bytes

-- `size_of::<RawFd>()`
abbrev pub fd_size : ℕ
fd_size = 4

module _ (libc : Libc) (en : Endian) where
  -- The bytes of a slice of file descriptors in memory.
  unfoldable pub slice_bytes : List RawFd → Bytes
  slice_bytes [] = []
  slice_bytes (fd ∷ fds) = to_ne_bytes en fd ++ slice_bytes fds

  -- `write_slice_as_bytes` into a buffer; none is the panic of `assert_eq!`.
  unfoldable pub write_slice_as_bytes : List RawFd → Bytes → Option Bytes
  write_slice_as_bytes [] buf = some buf
  write_slice_as_bytes (fd ∷ fds) buf =
      if length (fd ∷ fds) * fd_size == length buf then some (slice_bytes (fd ∷ fds)) else none

  -- What `send_with_fds` assembles: the control message, and the length of its buffer. The
  -- length of the payload has to be a `c_uint`.
  unfoldable pub assemble : List RawFd → Result (ControlMessage × ℕ)
  unfolding write_slice_as_bytes
  assemble fds =
      let payload_len = length fds * fd_size in
      if ltb payload_len (2 ^ 32)
      then elim (write_slice_as_bytes fds (replicate payload_len 0)) [
        | none ↦ panic
        | some payload ↦ ok (
          record {
            cmsg_level = libc.sol_socket;
            cmsg_type = libc.scm_rights;
            cmsg_len = libc.cmsg_len payload_len;
            cmsg_data = payload;
          },
          libc.cmsg_space payload_len,
        )
      ]
      else panic

  -- A buffer of `n` file descriptors, copied out of bytes.
  unfoldable pub fd_buf : ℕ → Bytes → List RawFd
  fd_buf zero bs = []
  fd_buf (suc n) bs = from_ne_bytes en (take 4 bs) ∷ fd_buf n (drop 4 bs)

  -- The file descriptors of one control message. A message shorter than its header is a panic,
  -- of the subtraction.
  unfoldable pub message_fds : ControlMessage → Option (List RawFd)
  message_fds m =
      if m.cmsg_level == libc.sol_socket && m.cmsg_type == libc.scm_rights
      then (if ltb m.cmsg_len (libc.cmsg_len 0)
          then none
          else some (fd_buf ((m.cmsg_len - libc.cmsg_len 0) / fd_size) m.cmsg_data))
      else some []

  -- `while !add_header.is_null()`, over the headers that `CMSG_FIRSTHDR` and `CMSG_NXTHDR` give;
  -- `fds` is what has been found so far.
  unfoldable pub find_fds : List ControlMessage → List RawFd → Option (List RawFd)
  find_fds [] fds = some fds
  find_fds (m ∷ ms) fds = elim (message_fds m) [
    | none ↦ none
    | some found ↦ find_fds ms (fds ++ found)
  ]

-- What `recvmsg` answers: that it would block, an error, or bytes with control messages.
pub data Reception : Type 0 where
  would_block : Reception
  failed : ℕ → Reception
  arrived : Bytes → List ControlMessage → Reception

-- What a `msghdr` says of its control messages: the messages in the buffer of `msg_control`, and
-- `msg_controllen`.
pub record Control : Type 0 where
  pub msg_control : List ControlMessage
  pub msg_controllen : ℕ

-- The writes so far, the last one first: the bytes that were taken, and the control messages that
-- `sendmsg` was given with them.
pub record SentMessages : Type 0 where
  pub answers : List Acceptance
  pub written : List (Bytes × Control)

-- The loop over `sendmsg`.
unfoldable pub sendmsg_loop :
    List Acceptance → List (Bytes × Control) → Bytes → Control → Result ℕ × SentMessages
sendmsg_loop [] w bs control = (hang, record { answers = []; written = w })
sendmsg_loop (Acceptance.would_block ∷ s) w bs control = sendmsg_loop s w bs control
sendmsg_loop (Acceptance.failed e ∷ s) w bs control =
    (err (io e), record { answers = s; written = w })
sendmsg_loop (Acceptance.accepts n ∷ s) w bs control =
    (ok (length (take n bs)), record { answers = s; written = (take n bs, control) ∷ w })

module _ (libc : Libc) (en : Endian) where
  unfoldable pub sendmsg_with_fds : Bytes → List RawFd → Exec SentMessages ℕ
  unfolding assemble sendmsg_loop
  sendmsg_with_fds bs fds o = elim (assemble libc en fds) [
    | ok (control, control_space) ↦
        sendmsg_loop o.answers o.written bs
          record { msg_control = control ∷ []; msg_controllen = control_space }
    | err e ↦ (err e, o)
    | panic ↦ (panic, o)
    | hang ↦ (hang, o)
  ]

  -- The loop over `recvmsg`, and the search for file descriptors after it.
  unfoldable pub recvmsg_with_fds : ℕ → Exec (List Reception) (Bytes × List RawFd)
  unfolding find_fds
  recvmsg_with_fds cap [] = (ok ([], []), [])
  recvmsg_with_fds cap (would_block ∷ s) = recvmsg_with_fds cap s
  recvmsg_with_fds cap (failed e ∷ s) = (err (io e), s)
  recvmsg_with_fds cap (arrived bs control ∷ s) =
      let rest = if ltb cap (length bs) then arrived (drop cap bs) [] ∷ s else s in
      elim (find_fds libc en control []) [
        | none ↦ (panic, rest)
        | some fds ↦ (ok (take cap bs, fds), rest)
      ]
