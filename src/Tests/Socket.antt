-- ===== src/Tests/Socket.antt =====
-- The control messages of socket-fd-ext at concrete inputs.
use one_true_pairing.Common.{ℕ, ◌+◌, ◌≡◌, refl, List, [], ◌∷◌, map, arith, All}
use one_true_pairing.Common.Bytes.{Bytes, little, codes}
use one_true_pairing.WhaleLand.Error.{Result, ok}
use one_true_pairing.WhaleLand.Packet.{RawFd}
use one_true_pairing.WhaleLand.Socket.{Acceptance, accepts, Arrival, recv_with_fds, send_with_fds}
use one_true_pairing.WhaleLand.Socket
use one_true_pairing.WhaleLand.Socket.Messages.{
  Libc, ControlMessage, sendmsg_with_fds, recvmsg_with_fds,
}
use one_true_pairing.WhaleLand.Socket.Refinement.{
  Item, rights, other, Answer, would_block, arrived, arrival, message, write_fds, write_control,
  IsAnswer, sendmsg_with_fds-send_with_fds, recvmsg_with_fds-recv_with_fds,
}

-- The numbers of a 64-bit Linux, with some more space.
abbrev linux : Libc
linux = record {
  sol_socket = 1;
  scm_rights = 1;
  cmsg_len = λ n. 16 + n;
  cmsg_space = λ n. 16 + n + 7;
  cmsg_len_header = λ n h. refl;
}

-- `SCM_CREDENTIALS`
abbrev credentials : ControlMessage
credentials = record {
  cmsg_level = 1;
  cmsg_type = 2;
  cmsg_len = 28;
  cmsg_data = codes "123456789012";
}

abbrev answers : List Answer
answers =
    would_block
    ∷ arrived (1 ∷ 2 ∷ 3 ∷ []) (rights (7 ∷ 300 ∷ []) ∷ other credentials ∷ rights (9 ∷ []) ∷ [])
    ∷ []

answers-IsAnswer : All (IsAnswer linux little) answers
answers-IsAnswer = ground arith

recvmsg_with_fds-recv_with_fds_example :
    (r : Result (Bytes × List RawFd)) × (s' : List Answer) × (recvmsg_with_fds linux little 2
        (map (message linux little) answers)
      ≡ (r, map (message linux little) s'))
    × (recv_with_fds 2 (map arrival answers) ≡ (r, map arrival s'))
recvmsg_with_fds-recv_with_fds_example =
    recvmsg_with_fds-recv_with_fds linux little 2 answers answers-IsAnswer

-- What the two calls return there.
received :
    recv_with_fds 2 (map arrival answers)
    ≡ (ok (1 ∷ 2 ∷ [], 7 ∷ 300 ∷ 9 ∷ []), Socket.arrived (3 ∷ []) [] ∷ [])
unfolding recv_with_fds
received = refl

sendmsg_with_fds-send_with_fds_example :
    (r : Result ℕ) × (s' : List Acceptance) × (w' : List (Bytes × List Item)) × (sendmsg_with_fds
        linux little
        (codes "abc")
        (7 ∷ 8 ∷ [])
        (record { answers = accepts 2 ∷ []; written = [] })
      ≡ (r, record { answers = s'; written = map (write_control linux little) w' }))
    × (send_with_fds (codes "abc") (7 ∷ 8 ∷ []) (record { answers = accepts 2 ∷ []; written = [] })
        ≡ (r, record { answers = s'; written = map write_fds w' }))
sendmsg_with_fds-send_with_fds_example =
    sendmsg_with_fds-send_with_fds linux little (codes "abc") (7 ∷ 8 ∷ []) (accepts 2 ∷ []) []
      (omega arith)
