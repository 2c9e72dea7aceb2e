-- ===== src/Raw/Transfer.antt =====
-- What lab04/src/tcp_client_raw.c sends to a peer that acknowledges all it is sent.
use io_t_lab.Common.{
  is_quit, ℕ, ◌+◌, ◌%◌, ◌^◌, ◌≡◌, List, [], ◌∷◌, ◌++◌, some, false, length, All, drop,
}
use io_t_lab.Raw.{data_type, SockAddr}
use io_t_lab.Raw.Headers.{IsControl}
use io_t_lab.Raw.Session.{Session, Outcome, waiting, wait_reply, seq_of, ack_seq_of}

-- The packets that carry these lines, with ACK and PSH alone set and with consecutive sequence numbers from `seq` on.
abbrev pub IsStream : ℕ → List (List ℕ) → List (List ℕ) → Type 0
IsStream seq [] [] = Unit
IsStream seq (line ∷ lines) (p ∷ packets) =
    (drop 40 p ≡ line)
    × IsControl data_type p
    × (seq_of p ≡ seq % 2 ^ 32)
    × IsStream ((seq + length line) % 2 ^ 32) lines packets
IsStream seq lines packets = ⊥

-- The peer answers each line with an acknowledgement of all of it, among packets that are for
-- others or are no bare acknowledgements.
abbrev pub IsAcked : SockAddr → ℕ → List (List ℕ) → List (List ℕ) → Type 0
IsAcked here seq [] bufs = Unit
IsAcked here seq (line ∷ lines) bufs =
    (buf : List ℕ) × (rest : List (List ℕ)) × (wait_reply here 0 bufs ≡ some (buf, rest))
    × (ack_seq_of buf ≡ (seq + length line) % 2 ^ 32)
    × IsAcked here ((seq + length line) % 2 ^ 32) lines rest

abbrev pub NoQuit : List (List ℕ) → Type 0
NoQuit = All (λ line. is_quit line ≡ false)

module _ (rand : ℕ → ℕ) (here peer : SockAddr) where
  IsTransfer : Session → List (List ℕ) → Outcome → Type 0
  IsTransfer s lines out =
      (t : Session) × (packets : List (List ℕ)) × (out ≡ waiting t)
      × (t.sent ≡ s.sent ++ packets)
      × IsStream s.seq_num lines packets
