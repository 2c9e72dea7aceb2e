-- ===== src/Net/Header.antt =====
-- The fields that `struct iphdr` and `struct tcphdr` lay over a buffer, at the offsets of RFC 791
-- and RFC 9293, as the machine reads them: multi-byte fields keep network order in memory.
use io_t_lab.Common.{ℕ, ◌/◌, ◌%◌, List}
use io_t_lab.Net.Memory.{load8, load16, load32}

-- The IP header stands at the start of the buffer.
abbrev pub ip_header_size : ℕ
ip_header_size = 20

abbrev pub ihl : List ℕ → ℕ
ihl buf = load8 buf 0 % 16

abbrev pub tot_len_at : ℕ
tot_len_at = 2

abbrev pub tot_len : List ℕ → ℕ
tot_len buf = load16 buf tot_len_at

abbrev pub ip_check_at : ℕ
ip_check_at = 10

abbrev pub saddr_at : ℕ
saddr_at = 12

abbrev pub saddr : List ℕ → ℕ
saddr buf = load32 buf saddr_at

abbrev pub daddr_at : ℕ
daddr_at = 16

abbrev pub daddr : List ℕ → ℕ
daddr buf = load32 buf daddr_at

-- The programs take the TCP header to follow 20 bytes later, whatever `ihl` says.
abbrev pub source_at : ℕ
source_at = 20

abbrev pub source : List ℕ → ℕ
source buf = load16 buf source_at

abbrev pub dest_at : ℕ
dest_at = 22

abbrev pub dest : List ℕ → ℕ
dest buf = load16 buf dest_at

abbrev pub flags : List ℕ → ℕ
flags buf = load8 buf 33

abbrev pub fin_flag : List ℕ → ℕ
fin_flag buf = flags buf % 2

abbrev pub syn_flag : List ℕ → ℕ
syn_flag buf = flags buf / 2 % 2

abbrev pub ack_flag : List ℕ → ℕ
ack_flag buf = flags buf / 16 % 2

abbrev pub tcp_check_at : ℕ
tcp_check_at = 36
