-- ===== src/Raw/Tests.antt =====
-- The client of lab04/src/tcp_client_raw.c with a concrete peer.
use io_t_lab.Common.{ℕ, ◌+◌, ◌^◌, ◌<◌, ◌↔◌, List, [], ◌∷◌, ◌++◌, arith, take, replicate}
use io_t_lab.Net.Checksum.Sum.{folded}
use io_t_lab.Net.Checksum.Verify.{Accepts}
use io_t_lab.Raw.{data_type, SockAddr, net32, bytes16, bytes32, tcp_buffer, ip_header}
use io_t_lab.Net.Checksum.Received.{tcp_received}
use io_t_lab.Raw.Session.{Session, packet}
use io_t_lab.Raw.Headers.{IsControl, Reads, packet-Reads, packet-Accepts_iff}

abbrev here : SockAddr
here = record { addr = 0x0200a8c0; port = 0x3930 }

abbrev peer : SockAddr
peer = record { addr = 0x0300a8c0; port = 0x5000 }

abbrev hi : List ℕ
hi = 104 ∷ 105 ∷ 10 ∷ []

abbrev rand : ℕ → ℕ
rand n = 7000 + n

-- A packet for the client, with these numbers and control bits.
abbrev reply : ℕ → ℕ → ℕ → List ℕ
reply seq acked control =
    replicate 16 0
    ++ bytes32 here.addr
    ++ bytes16 peer.port
    ++ bytes16 here.port
    ++ net32 seq
    ++ net32 acked
    ++ 80 ∷ control ∷ []

abbrev other : List ℕ
other = replicate 40 0

abbrev opened : Session
opened = record { seq_num = 7001; ack_num = 501; drawn = 3; sent = [] }

packet-Reads_example :
    Reads here peer hi opened (packet rand here peer data_type hi opened)
    × IsControl data_type (packet rand here peer data_type hi opened)
packet-Reads_example =
    packet-Reads rand here peer data_type hi opened (omega arith) (omega arith) (omega arith)
      (omega arith) (omega arith)

packet-Accepts_iff_example :
    (Accepts (tcp_received (packet rand here peer data_type hi opened))
      ↔ (folded (tcp_buffer data_type here peer 7001 501 hi 0) < 2 ^ 16))
    × (Accepts (take 20 (packet rand here peer data_type hi opened))
        ↔ (folded (ip_header here peer 43 7003 0) < 2 ^ 16))
packet-Accepts_iff_example =
    packet-Accepts_iff rand here peer data_type hi opened (omega arith) (omega arith) (omega arith)
      (omega arith) (omega arith) (omega arith)
