-- ===== src/Capture/Frames.antt =====
-- The packets of lab04/src/tcp_client_raw.c as lab03/src/capture.c reports them.
use io_t_lab.Common.{
  ℕ, ◌+◌, ◌*◌, ◌/◌, ◌%◌, ◌^◌, ◌<◌, ◌≤◌, ◌≡◌, ◌∙◌, refl, ap, ap₂, arith, List, [], ◌∷◌, ◌++◌, Option,
  some, incr, swap16, u16, drop, length, All, map, take-eq_of_le,
}
use io_t_lab.Net.Memory.{load32}
use io_t_lab.Raw.{TcpType, SockAddr, net32, bytes32, flag_byte}
use io_t_lab.Raw.Session.{Session, packet}
use io_t_lab.Capture.{
  Flag, ack, psh, syn, TcpReport, IpReport, Report, print_ip_header, print_ethernet_header,
  print_tcp_packet, print_flags, capture,
}

capture-fits :
    (frame : List ℕ) (rs : List (Option (List ℕ))) (buffer : List ℕ) (n : ℕ)
    → length frame ≤ 2 ^ 16
    → capture (some frame ∷ rs) buffer n ≡ (
        let filled = frame ++ drop (length frame) buffer in
        print_ethernet_header n filled ∷ capture rs filled (incr n))
capture-fits frame rs buffer n h =
    ap
      (λ bytes.
        let filled = bytes ++ drop (length bytes) buffer in
        print_ethernet_header n filled ∷ capture rs filled (incr n))
      (take-eq_of_le (2 ^ 16) frame h)

-- The six bytes of a link address.
pub record Mac : Type 0 where
  pub b0 : ℕ
  pub b1 : ℕ
  pub b2 : ℕ
  pub b3 : ℕ
  pub b4 : ℕ
  pub b5 : ℕ

abbrev pub mac_bytes : Mac → List ℕ
mac_bytes m = m.b0 ∷ m.b1 ∷ m.b2 ∷ m.b3 ∷ m.b4 ∷ m.b5 ∷ []

-- A frame of type IPv4.
abbrev pub ip_frame : Mac → Mac → List ℕ → List ℕ
ip_frame dest source payload = mac_bytes dest ++ mac_bytes source ++ 8 ∷ 0 ∷ payload

-- One packet of a session, and the numbers that `main` had when it was built.
pub record Sent : Type 0 where
  pub kind : TcpType
  pub message : List ℕ
  pub state : Session

abbrev pub flags_of : TcpType → List Flag
flags_of TcpType.syn = syn ∷ []
flags_of TcpType.ack = ack ∷ []
flags_of TcpType.data_type = ack ∷ psh ∷ []

module _ (rand : ℕ → ℕ) (here peer : SockAddr) (dest source : Mac) where
  abbrev pub frame_of : Sent → List ℕ
  frame_of p = ip_frame dest source (packet rand here peer p.kind p.message p.state)

  -- Of a sequence number only the upper half is printed.
  abbrev pub tcp_report_of : Sent → TcpReport
  tcp_report_of p = record {
    source_port = swap16 here.port;
    dest_port = swap16 peer.port;
    sequence = p.state.seq_num / 2 ^ 16 % 2 ^ 16;
    acknowledge = p.state.ack_num / 2 ^ 16 % 2 ^ 16;
    flags = flags_of p.kind;
  }

  abbrev pub ip_report_of : Sent → IpReport
  ip_report_of p = record {
    source_ip = here.addr;
    dest_ip = peer.addr;
    ip_protocol = 6;
    tcp = some (tcp_report_of p);
  }

  abbrev pub report_of : ℕ → Sent → Report
  report_of n p = record {
    num = n;
    source_mac = mac_bytes source;
    dest_mac = mac_bytes dest;
    eth_protocol = 8;
    ip = some (ip_report_of p);
  }

  abbrev pub reports_of : ℕ → List Sent → List Report
  reports_of n [] = []
  reports_of n (p ∷ ps) = report_of n p ∷ reports_of (incr n) ps

  abbrev IsShort : Sent → Type 0
  IsShort p = length p.message + 54 ≤ 2 ^ 16

  module _ (a : here.addr < 2 ^ 32) (b : peer.addr < 2 ^ 32) (c : here.port < 2 ^ 16)
      (d : peer.port < 2 ^ 16) where
    print_tcp_packet-packet :
        (p : Sent) (rest : List ℕ)
        → print_tcp_packet (drop 20 (packet rand here peer p.kind p.message p.state) ++ rest)
          ≡ tcp_report_of p
    print_tcp_packet-packet p rest = λ i. record {
      source_port = from_port i;
      dest_port = to_port i;
      sequence = upper p.state.seq_num i;
      acknowledge = upper p.state.ack_num i;
      flags = control p.kind i;
    }
      where
        from_port : swap16 (here.port % 256 + 256 * (here.port / 256 % 256)) ≡ swap16 here.port
        from_port = omega arith

        to_port : swap16 (peer.port % 256 + 256 * (peer.port / 256 % 256)) ≡ swap16 peer.port
        to_port = omega arith

        upper : (n : ℕ) → swap16 (u16 (load32 (net32 n) 0)) ≡ n / 2 ^ 16 % 2 ^ 16
        upper n = omega arith

        control : (k : TcpType) → print_flags (flag_byte k) ≡ flags_of k
        control TcpType.syn = refl
        control TcpType.ack = refl
        control TcpType.data_type = refl

    print_ip_header-packet :
        (p : Sent) (rest : List ℕ)
        → print_ip_header (packet rand here peer p.kind p.message p.state ++ rest) ≡ ip_report_of p
    print_ip_header-packet p rest = λ i. record {
      source_ip = address here.addr a i;
      dest_ip = address peer.addr b i;
      ip_protocol = 6;
      tcp = some (print_tcp_packet-packet p rest i);
    }
      where
        address : (n : ℕ) → n < 2 ^ 32 → load32 (bytes32 n) 0 ≡ n
        address n small = omega arith

    print_ethernet_header-packet :
        (n : ℕ) (p : Sent) (rest : List ℕ)
        → print_ethernet_header n (frame_of p ++ rest) ≡ report_of n p
    print_ethernet_header-packet n p rest = λ i. record {
      num = n;
      source_mac = mac_bytes source;
      dest_mac = mac_bytes dest;
      eth_protocol = 8;
      ip = some (print_ip_header-packet p rest i);
    }

    frame_of-fits : (p : Sent) → IsShort p → length (frame_of p) ≤ 2 ^ 16
    frame_of-fits p h = omega arith

    -- For addresses and ports of their width, frames with the packets of a client, of at most 65536
    -- bytes each, are reported in order, numbered from num_packets on, with the packet's link
    -- addresses, addresses, ports and flags, whatever the buffer held; of the sequence numbers only
    -- the upper 16 bits are printed.
    pub capture-packets :
        (ps : List Sent) (buffer : List ℕ) (n : ℕ)
        → All IsShort ps
        → capture (map (λ p. some (frame_of p)) ps) buffer n ≡ reports_of n ps
    capture-packets [] buffer n h = refl
    capture-packets (p ∷ ps) buffer n h =
        capture-fits (frame_of p) (map (λ q. some (frame_of q)) ps) buffer n (frame_of-fits p h.0)
        ∙ ap₂ ◌∷◌ (print_ethernet_header-packet n p (drop (length (frame_of p)) buffer))
            (capture-packets ps (frame_of p ++ drop (length (frame_of p)) buffer) (incr n) h.1)

-- For addresses and ports of their width, a frame that ends behind its link header, after one with
-- a packet of a client, is reported with the addresses, ports and flags of that packet.
pub capture-cut_short :
    (rand : ℕ → ℕ) (here peer : SockAddr) (dest source dest' source' : Mac) (p : Sent)
    (buffer : List ℕ) (n : ℕ)
    → here.addr < 2 ^ 32
    → peer.addr < 2 ^ 32
    → here.port < 2 ^ 16
    → peer.port < 2 ^ 16
    → IsShort rand here peer dest source p
    → capture
        (some (frame_of rand here peer dest source p) ∷ some (ip_frame dest' source' []) ∷ [])
        buffer
        n
      ≡ report_of rand here peer dest source n p
        ∷ report_of rand here peer dest' source' (incr n) p
        ∷ []
capture-cut_short rand here peer dest source dest' source' p buffer n a b c d h =
    capture-fits frame (some (ip_frame dest' source' []) ∷ []) buffer n
      (frame_of-fits rand here peer dest source a b c d p h)
    ∙ ap₂ ◌∷◌ (print_ethernet_header-packet rand here peer dest source a b c d n p rest) (
        ap (◌∷ [])
          (print_ethernet_header-packet rand here peer dest' source' a b c d (incr n) p rest))
  where
    frame : List ℕ
    frame = frame_of rand here peer dest source p

    rest : List ℕ
    rest = drop (length frame) buffer
