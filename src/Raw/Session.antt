-- ===== src/Raw/Session.antt =====
-- The handshake and the data transfer in `main` of lab04/src/tcp_client_raw.c. `recv` is the list of
-- what the buffer holds after each call; at its end `recv` returns 0 or less. `fgets` is the list of
-- the lines typed; at its end the program waits for another.
use io_t_lab.Common.{
  is_quit, ℕ, suc, ◌+◌, ◌*◌, ◌^◌, List, [], ◌∷◌, ◌++◌, Option, none, some, Bool, ◌&&◌, ◌==◌, incr,
  if◌then◌else◌, length,
}
use io_t_lab.Net.Memory.{load8}
use io_t_lab.Net.Header.{daddr, dest, syn_flag, ack_flag}
use io_t_lab.Raw.{TcpType, syn, ack, data_type, SockAddr, make_tcp_header, make_ip_header}

-- `ntohl` of a field.
abbrev pub load_net32 : List ℕ → ℕ → ℕ
load_net32 buf at =
    2 ^ 24 * load8 buf at
    + 2 ^ 16 * load8 buf (at + 1)
    + 256 * load8 buf (at + 2)
    + load8 buf (at + 3)

abbrev pub seq_of : List ℕ → ℕ
seq_of buf = load_net32 buf 24

abbrev pub ack_seq_of : List ℕ → ℕ
ack_seq_of buf = load_net32 buf 28

-- The variables of `main`, how often `rand` was called, and what was sent.
pub record Session : Type 0 where
  pub seq_num : ℕ
  pub ack_num : ℕ
  pub drawn : ℕ
  pub sent : List (List ℕ)

pub data Outcome : Type 0 where
  -- Exit with an error message.
  no_reply : Session → Outcome
  -- `close`, after Q.
  closed : Session → Outcome
  waiting : Session → Outcome

module _ (saddr : SockAddr) where
  -- Lines 210 and 264.
  abbrev pub is_reply : ℕ → List ℕ → Bool
  is_reply syn_bit buf =
      daddr buf == saddr.addr
      && dest buf == saddr.port
      && ack_flag buf == 1
      && syn_flag buf == syn_bit

  -- The two loops over `recv`: the packet that ends the loop, and those behind it.
  abbrev pub wait_reply : ℕ → List (List ℕ) → Option (List ℕ × List (List ℕ))
  wait_reply syn_bit [] = none
  wait_reply syn_bit (buf ∷ bufs) =
      let rest = wait_reply syn_bit bufs in if is_reply syn_bit buf then some (buf, bufs) else rest

module _ (rand : ℕ → ℕ) (saddr peer : SockAddr) where
  -- Lines 197-200, 229-232 and 250-254.
  abbrev pub packet : TcpType → List ℕ → Session → List ℕ
  packet type message s =
      make_ip_header saddr peer (40 + length message) (rand s.drawn)
      ++ make_tcp_header type saddr peer s.seq_num s.ack_num message
      ++ message

  abbrev pub send_packet : TcpType → List ℕ → Session → Session
  send_packet type message s = record s {
    drawn = suc s.drawn;
    sent = s.sent ++ packet type message s ∷ [];
  }

  -- Lines 237-277.
  unfoldable pub transfer : List (List ℕ) → List (List ℕ) → Session → Outcome
  transfer [] bufs s = waiting s
  transfer (line ∷ lines) bufs s =
      let s' = send_packet data_type line s in
      if is_quit line then closed s else elim (wait_reply saddr 0 bufs) [
        | none ↦ no_reply s'
        | some (buf, rest) ↦ transfer lines rest (record s' { seq_num = ack_seq_of buf })
      ]

  -- Lines 184-277, with `rand()` first drawn for the sequence number.
  unfoldable pub run_client : List (List ℕ) → List (List ℕ) → Outcome
  unfolding transfer
  run_client lines bufs =
      let start : Session = record { seq_num = rand 0; ack_num = 0; drawn = 1; sent = [] } in
      let s = send_packet syn [] start in
      elim (wait_reply saddr 1 bufs) [
        | none ↦ no_reply s
        | some (buf, rest) ↦ transfer lines rest (
            send_packet ack [] (record s { seq_num = ack_seq_of buf; ack_num = incr (seq_of buf) }))
      ]
