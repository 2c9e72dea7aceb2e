-- ===== src/Raw.antt =====
-- lab04/src/tcp_client_raw.c: the headers that the client builds. Every byte of a header is written
-- after the `malloc`, so a header is the list of its bytes.
pub mod Session
pub mod Headers
pub mod Transfer
mod Tests
use io_t_lab.Common.{ℕ, ◌+◌, ◌/◌, ◌%◌, ◌^◌, List, [], ◌∷◌, ◌++◌, length}
use io_t_lab.Net.Checksum.{checksum}

-- TCP_TYPE
pub data TcpType : Type 0 where
  syn ack data_type : TcpType

-- `sin_addr` and `sin_port` of a `struct sockaddr_in`, in network order.
pub record SockAddr : Type 0 where
  pub addr : ℕ
  pub port : ℕ

-- The bytes of a `uint16_t` or a `uint32_t` in memory, as it is and after `htons` or `htonl`.
abbrev pub bytes16 : ℕ → List ℕ
bytes16 v = v % 256 ∷ v / 256 % 256 ∷ []

abbrev pub bytes32 : ℕ → List ℕ
bytes32 v = bytes16 v ++ bytes16 (v / 2 ^ 16)

abbrev pub net16 : ℕ → List ℕ
net16 v = v / 256 % 256 ∷ v % 256 ∷ []

abbrev pub net32 : ℕ → List ℕ
net32 v = net16 (v / 2 ^ 16) ++ net16 v

-- Bits fin, syn, rst, psh, ack and urg of byte 13.
abbrev pub flag_byte : TcpType → ℕ
flag_byte syn = 2
flag_byte ack = 16
flag_byte data_type = 24

-- Lines 67-92, with the value of `check`.
abbrev pub tcp_header : TcpType → SockAddr → SockAddr → ℕ → ℕ → ℕ → List ℕ
tcp_header type saddr daddr seq_num ack_num check =
    bytes16 saddr.port
    ++ bytes16 daddr.port
    ++ net32 seq_num
    ++ net32 ack_num
    ++ 80 ∷ flag_byte type ∷ []
    ++ net16 16384
    ++ bytes16 check
    ++ 0 ∷ 0 ∷ []

abbrev pub pseudo_header : ℕ → ℕ → ℕ → ℕ → List ℕ
pseudo_header from to protocol tcp_len =
    bytes32 from ++ bytes32 to ++ 0 ∷ protocol % 256 ∷ [] ++ net16 tcp_len

-- `temp_c`: the pseudo header, the header and the data.
abbrev pub tcp_buffer : TcpType → SockAddr → SockAddr → ℕ → ℕ → List ℕ → ℕ → List ℕ
tcp_buffer type saddr daddr seq_num ack_num message check =
    pseudo_header saddr.addr daddr.addr 6 (20 + length message)
    ++ tcp_header type saddr daddr seq_num ack_num check
    ++ message

abbrev pub make_tcp_header : TcpType → SockAddr → SockAddr → ℕ → ℕ → List ℕ → List ℕ
make_tcp_header type saddr daddr seq_num ack_num message =
    tcp_header type saddr daddr seq_num ack_num
      (checksum (tcp_buffer type saddr daddr seq_num ack_num message 0))

-- Lines 111-121, with the value of `check`; `id` is the `rand()` of line 115.
abbrev pub ip_header : SockAddr → SockAddr → ℕ → ℕ → ℕ → List ℕ
ip_header saddr daddr len id check =
    69 ∷ 0 ∷ []
    ++ net16 len
    ++ net16 (id % 65535)
    ++ net16 16384
    ++ 60 ∷ 6 ∷ []
    ++ bytes16 check
    ++ bytes32 saddr.addr
    ++ bytes32 daddr.addr

abbrev pub make_ip_header : SockAddr → SockAddr → ℕ → ℕ → List ℕ
make_ip_header saddr daddr len id =
    ip_header saddr daddr len id (checksum (ip_header saddr daddr len id 0))
