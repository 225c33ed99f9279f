-- ===== src/WhaleLand/Socket.antt =====
-- socket-fd-ext/src/lib.rs: sends and receives of bytes with file descriptors beside them. Each
-- call retries while the operating system would block.
pub mod Messages
pub mod Refinement
use one_true_pairing.Common.{ℕ, zero, suc, List, [], ◌∷◌, ltb, if◌then◌else◌, length, take, drop}
use one_true_pairing.Common.Bytes.{Bytes}
use one_true_pairing.WhaleLand.Error.{io, Result, ok, err, hang}
use one_true_pairing.WhaleLand.Exec.{Exec}
use one_true_pairing.WhaleLand.Packet.{RawFd}

-- What the operating system answers to a read: that it would block, an error, or bytes that have
-- arrived together with file descriptors. Past the end of the list the peer has closed the
-- connection, and each further read returns 0 bytes.
pub data Arrival : Type 0 where
  would_block : Arrival
  failed : ℕ → Arrival
  arrived : Bytes → List RawFd → Arrival

-- `recv_with_fds` on a buffer of `cap` bytes. What does not fit stays in the socket.
unfoldable pub recv_with_fds : ℕ → Exec (List Arrival) (Bytes × List RawFd)
recv_with_fds cap [] = (ok ([], []), [])
recv_with_fds cap (would_block ∷ s) = recv_with_fds cap s
recv_with_fds cap (failed e ∷ s) = (err (io e), s)
recv_with_fds cap (arrived bs fds ∷ s) =
    (ok (take cap bs, fds), if ltb cap (length bs) then arrived (drop cap bs) [] ∷ s else s)

-- `recv`: a plain read. The file descriptors of what it takes are lost, and a read into an empty
-- buffer takes nothing.
unfoldable pub recv : ℕ → Exec (List Arrival) Bytes
recv zero s = (ok [], s)
recv (suc cap) [] = (ok [], [])
recv (suc cap) (would_block ∷ s) = recv (suc cap) s
recv (suc cap) (failed e ∷ s) = (err (io e), s)
recv (suc cap) (arrived bs fds ∷ s) = (
  ok (take (suc cap) bs),
  if ltb (suc cap) (length bs) then arrived (drop (suc cap) bs) [] ∷ s else s,
)

-- What the operating system answers to a write: that it would block, an error, or the greatest
-- number of bytes that it takes now. Past the end of the list the socket is never writable again.
pub data Acceptance : Type 0 where
  would_block : Acceptance
  failed : ℕ → Acceptance
  accepts : ℕ → Acceptance

-- The answers to come, and the writes so far, the last one first.
pub record Outgoing : Type 0 where
  pub answers : List Acceptance
  pub written : List (Bytes × List RawFd)

unfoldable pub send_on :
    List Acceptance → List (Bytes × List RawFd) → Bytes → List RawFd → Result ℕ × Outgoing
send_on [] w bs fds = (hang, record { answers = []; written = w })
send_on (would_block ∷ s) w bs fds = send_on s w bs fds
send_on (failed e ∷ s) w bs fds = (err (io e), record { answers = s; written = w })
send_on (accepts n ∷ s) w bs fds =
    (ok (length (take n bs)), record { answers = s; written = (take n bs, fds) ∷ w })

-- `send_with_fds`; `send` is the same with no file descriptors. The result is the number of bytes
-- that were taken.
unfoldable pub send_with_fds : Bytes → List RawFd → Exec Outgoing ℕ
unfolding send_on
send_with_fds bs fds o = send_on o.answers o.written bs fds

unfoldable pub send : Bytes → Exec Outgoing ℕ
unfolding send_on
send bs o = send_on o.answers o.written bs []
