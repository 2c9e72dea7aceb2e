-- ===== src/Capture.antt =====
-- lab03/src/capture.c: what is printed of each frame. A report holds the values behind the format
-- strings; `inet_ntoa` is applied to the addresses of an IpReport.
pub mod Frames
mod Tests
use io_t_lab.Common.{
  ℕ, ◌/◌, ◌%◌, List, [], ◌∷◌, ◌++◌, Option, none, some, Bool, ◌==◌, incr, u16, swap16, take, drop,
  length, if◌then◌else◌,
}
use io_t_lab.Net.Memory.{load8, load16, load32}
use io_t_lab.Net.Header.{saddr, daddr}

pub data Flag : Type 0 where
  urg ack psh rst syn fin : Flag

pub record TcpReport : Type 0 where
  pub source_port : ℕ
  pub dest_port : ℕ
  pub sequence : ℕ
  pub acknowledge : ℕ
  pub flags : List Flag

pub record IpReport : Type 0 where
  pub source_ip : ℕ
  pub dest_ip : ℕ
  pub ip_protocol : ℕ
  pub tcp : Option TcpReport

pub record Report : Type 0 where
  pub num : ℕ
  pub source_mac : List ℕ
  pub dest_mac : List ℕ
  pub eth_protocol : ℕ
  pub ip : Option IpReport

abbrev buffer_size : ℕ
buffer_size = 65536

-- A bit of byte 13 of the TCP header.
abbrev pub flag_if : ℕ → ℕ → Flag → List Flag
flag_if control bit flag = if control / bit % 2 == 1 then flag ∷ [] else []

-- Lines 124-129.
abbrev pub print_flags : ℕ → List Flag
print_flags control =
    flag_if control 32 urg
    ++ flag_if control 16 ack
    ++ flag_if control 8 psh
    ++ flag_if control 4 rst
    ++ flag_if control 2 syn
    ++ flag_if control 1 fin

-- `ntohs` of the 32-bit `seq` and `ack_seq` converts them to 16 bits first.
abbrev pub print_tcp_packet : List ℕ → TcpReport
print_tcp_packet buffer = record {
  source_port = swap16 (load16 buffer 0);
  dest_port = swap16 (load16 buffer 2);
  sequence = swap16 (u16 (load32 buffer 4));
  acknowledge = swap16 (u16 (load32 buffer 8));
  flags = print_flags (load8 buffer 13);
}

abbrev pub print_ip_header : List ℕ → IpReport
print_ip_header buffer =
    let protocol = load8 buffer 9 in
    record {
      source_ip = saddr buffer;
      dest_ip = daddr buffer;
      ip_protocol = protocol;
      tcp = if protocol == 6 then some (print_tcp_packet (drop 20 buffer)) else none;
    }

abbrev pub print_ethernet_header : ℕ → List ℕ → Report
print_ethernet_header num_packets buffer =
    let h_proto = load16 buffer 12 in
    record {
      num = num_packets;
      source_mac = take 6 (drop 6 buffer);
      dest_mac = take 6 buffer;
      eth_protocol = h_proto;
      ip = if swap16 h_proto == 0x0800 then some (print_ip_header (drop 14 buffer)) else none;
    }

-- `recv` leaves the bytes of the buffer behind the frame as they were.
abbrev pub recv_into : List ℕ → List ℕ → List ℕ
recv_into frame buffer = let bytes = take buffer_size frame in bytes ++ drop (length bytes) buffer

-- Lines 53-67. `recv` returns a frame, or -1; at the end of the list it waits.
abbrev pub capture : List (Option (List ℕ)) → List ℕ → ℕ → List Report
capture [] buffer num_packets = []
capture (none ∷ rs) buffer num_packets = []
capture (some frame ∷ rs) buffer num_packets =
    let filled = recv_into frame buffer in
    print_ethernet_header num_packets filled ∷ capture rs filled (incr num_packets)
