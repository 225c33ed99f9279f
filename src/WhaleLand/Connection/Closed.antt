-- ===== src/WhaleLand/Connection/Closed.antt =====
-- connection.rs, `recv_packet` on a connection that the peer has closed.
use one_true_pairing.Common.{
  ℕ, zero, suc, ◌-◌, ◌<◌, ◌≡◌, refl, ap, ◌∙◌, true, [], ◌++◌, append-nil, ltb, lt→ltb, length,
}
use one_true_pairing.Common.Bytes.{Bytes}
use one_true_pairing.WhaleLand.Error.{ok, hang}
use one_true_pairing.WhaleLand.Socket.{recv}
use one_true_pairing.WhaleLand.Connection.{recv_loop}

recv_closed : (n : ℕ) → recv n [] ≡ (ok [], [])
unfolding recv
recv_closed zero = refl
recv_closed (suc n) = refl

recv_loop_more :
    (fuel n : ℕ) (acc : Bytes)
    → ltb (length acc) n ≡ true
    → recv_loop (suc fuel) n acc [] ≡ recv_loop fuel n (acc ++ []) []
unfolding recv_loop
recv_loop_more fuel n acc e = rw (e, recv_loop) (rw (recv_closed (n - length acc)) refl)

-- Once the peer has closed the connection, a receiving loop that still wants bytes is neither done
-- nor an error after any number of rounds.
pub recv_loop_closed :
    (fuel n : ℕ) (acc : Bytes) → length acc < n → recv_loop fuel n acc [] ≡ (hang, [])
unfolding recv_loop
recv_loop_closed zero n acc h = rw (lt→ltb (length acc) n h, recv_loop) refl
recv_loop_closed (suc fuel) n acc h =
    recv_loop_more fuel n acc (lt→ltb (length acc) n h)
    ∙ ap (λ xs. recv_loop fuel n xs []) (append-nil acc)
    ∙ recv_loop_closed fuel n acc h
