-- ===== src/Raw/Headers.antt =====
-- What a receiver reads in a packet of lab04/src/tcp_client_raw.c.
use io_t_lab.Common.{
  ℕ, ◌+◌, ◌*◌, ◌/◌, ◌%◌, ◌^◌, ◌<◌, ◌≡◌, ◌↔◌, refl, List, ◌++◌, arith, length, take, drop,
  All-append, take-eq_of_le,
}
use io_t_lab.Net.Memory.{IsByte, IsBytes, load8}
use io_t_lab.Net.Header.{saddr, daddr, source, dest, flags, fin_flag, syn_flag, ack_flag, ihl}
use io_t_lab.Net.Checksum.Sum.{folded}
use io_t_lab.Net.Checksum.Received.{segment_length, tcp_received}
use io_t_lab.Net.Checksum.Verify.{Accepts, checksum-Accepts_iff}
use io_t_lab.Raw.{
  TcpType, flag_byte, syn, ack, data_type, SockAddr, pseudo_header, tcp_buffer, ip_header,
  tcp_header,
}
use io_t_lab.Raw.Session.{Session, packet, seq_of, ack_seq_of}

abbrev psh_flag : List ℕ → ℕ
psh_flag buf = flags buf / 8 % 2

-- The control bits that RFC 9293 gives a segment of each kind; FIN, RST and URG are off.
abbrev pub IsControl : TcpType → List ℕ → Type 0
IsControl type buf =
    IsKind type × (fin_flag buf ≡ 0) × (flags buf / 4 % 2 ≡ 0) × (flags buf / 32 ≡ 0)
  where
    IsKind : TcpType → Type 0
    IsKind syn = (syn_flag buf ≡ 1) × (ack_flag buf ≡ 0) × (psh_flag buf ≡ 0)
    IsKind ack = (syn_flag buf ≡ 0) × (ack_flag buf ≡ 1) × (psh_flag buf ≡ 0)
    IsKind data_type = (syn_flag buf ≡ 0) × (ack_flag buf ≡ 1) × (psh_flag buf ≡ 1)

pub packet-IsControl :
    (type : TcpType) (rand : ℕ → ℕ) (here peer : SockAddr) (message : List ℕ) (s : Session)
    → IsControl type (packet rand here peer type message s)
packet-IsControl syn rand here peer message s = ((refl, refl, refl), refl, refl, refl)
packet-IsControl ack rand here peer message s = ((refl, refl, refl), refl, refl, refl)
packet-IsControl data_type rand here peer message s = ((refl, refl, refl), refl, refl, refl)

-- What is read in a packet.
pub record Reads (here peer : SockAddr) (message : List ℕ) (s : Session) (buf : List ℕ)
    : Type 0 where
  pub from : saddr buf ≡ here.addr
  pub to : daddr buf ≡ peer.addr
  pub from_port : source buf ≡ here.port
  pub to_port : dest buf ≡ peer.port
  pub sequence : seq_of buf ≡ s.seq_num % 2 ^ 32
  pub acknowledges : ack_seq_of buf ≡ s.ack_num % 2 ^ 32
  pub sized : 256 * load8 buf 2 + load8 buf 3 ≡ length buf
  pub headers : (ihl buf ≡ 5) × (load8 buf 32 / 16 ≡ 5)
  pub text : drop 40 buf ≡ message

module _ (rand : ℕ → ℕ) (here peer : SockAddr) (type : TcpType) (message : List ℕ) (s : Session)
    (a : here.addr < 2 ^ 32) (b : peer.addr < 2 ^ 32) (c : here.port < 2 ^ 16)
    (d : peer.port < 2 ^ 16) where
  -- For addresses and ports of their width and a packet of fewer than 65536 bytes, a receiver reads
  -- back the addresses, the ports, the sequence numbers modulo 2 ^ 32, the packet's own length, the
  -- header lengths and the message, and the control bits are those of the kind of segment.
  pub packet-Reads :
      length message + 40 < 2 ^ 16
      → Reads here peer message s (packet rand here peer type message s)
        × IsControl type (packet rand here peer type message s)
  packet-Reads small = (
    record {
      from = omega arith;
      to = omega arith;
      from_port = omega arith;
      to_port = omega arith;
      sequence = omega arith;
      acknowledges = omega arith;
      sized = omega arith;
      headers = (omega arith, omega arith);
      text = refl;
    },
    packet-IsControl type rand here peer message s,
  )

  -- What the receiver sums is what the client summed, with the check field in it.
  packet-received :
      length message + 40 < 2 ^ 16
      → tcp_received (packet rand here peer type message s)
        ≡ pseudo_header here.addr peer.addr 6 (20 + length message)
          ++ drop 20 (packet rand here peer type message s)
  packet-received small =
      let out : List ℕ = packet rand here peer type message s in
      let whole : take (20 + length message) (drop 20 out) ≡ drop 20 out =
        take-eq_of_le (20 + length message) (drop 20 out) (omega arith) in
      let sized : segment_length out ≡ 20 + length message = omega arith in
      let high : (20 + length message) / 256 % 256 ≡ (20 + length message) / 256 = omega arith in
      rw (sized, whole, high) refl

  -- For addresses and ports of their width and a message of bytes in a packet of fewer than 65536
  -- bytes, a receiver accepts the TCP
  -- checksum, with the pseudo header of RFC 9293, and the checksum of the IP header, each exactly
  -- when adding the carries of the sum once leaves no carry.
  pub packet-Accepts_iff :
      IsBytes message
      → length message + 40 < 2 ^ 16
      → let out = packet rand here peer type message s in
        (Accepts (tcp_received out)
          ↔ (folded (tcp_buffer type here peer s.seq_num s.ack_num message 0) < 2 ^ 16))
        × (Accepts (take 20 out)
            ↔ (folded (ip_header here peer (40 + length message) (rand s.drawn) 0) < 2 ^ 16))
  packet-Accepts_iff bytes small = (
    rw (packet-received small) (
        checksum-Accepts_iff (tcp_buffer type here peer s.seq_num s.ack_num message 0) 14
          tcp_buffer-IsBytes (omega arith) (omega arith) refl),
    checksum-Accepts_iff (ip_header here peer (40 + length message) (rand s.drawn) 0) 5
        (omega arith) (omega arith) (omega arith) refl,
  )
    where
      flag_byte-IsByte : (t : TcpType) → IsByte (flag_byte t)
      flag_byte-IsByte syn = omega arith
      flag_byte-IsByte ack = omega arith
      flag_byte-IsByte data_type = omega arith

      tcp_buffer-IsBytes : IsBytes (tcp_buffer type here peer s.seq_num s.ack_num message 0)
      tcp_buffer-IsBytes =
          All-append IsByte
            (pseudo_header here.addr peer.addr 6 (20 + length message)
              ++ tcp_header type here peer s.seq_num s.ack_num 0)
            message (omega (arith, flag_byte-IsByte type)) bytes
