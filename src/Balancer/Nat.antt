-- ===== src/Balancer/Nat.antt =====
-- `make_pseudo_header`, `check_ip_and_port`, `check_type` and `nat` of L4LB/LoadBalancer.c. The
-- buffer is rewritten in place.
use io_t_lab.Common.{
  ℕ, ◌+◌, ◌-◌, ◌*◌, List, ◌++◌, Option, none, some, Bool, ◌&&◌, ◌==◌, leb, ltb, if◌then◌else◌,
  ◌>>=◌, swap16, u16, get_elem?, take, drop, length, replicate, find_index,
}
use io_t_lab.Net.Memory.{store8, store16, store32}
use io_t_lab.Net.Header.{
  ip_header_size, ihl, tot_len, ip_check_at, saddr_at, daddr_at, daddr, source_at, dest_at, dest,
  syn_flag, ack_flag, fin_flag, tcp_check_at,
}
use io_t_lab.Net.Checksum.{checksum}
use io_t_lab.Balancer.{Balancer, Client}

pub data Direction : Type 0 where
  clnt2serv serv2clnt : Direction

pub data TcpType : Type 0 where
  syn ack syn_ack fin payload : TcpType

-- `lbaddr`: the address that clients use, in network order.
pub record LbAddr : Type 0 where
  pub addr : ℕ
  pub port : ℕ

abbrev pub has_pseudo_port : ℕ → Client → Bool
has_pseudo_port p c = c.pseudo_port == p

-- `none` is the result -1.
unfoldable pub check_ip_and_port : LbAddr → List Client → List ℕ → Option Direction
check_ip_and_port lb clients buf =
    if daddr buf == lb.addr && dest buf == lb.port
    then some clnt2serv
    else if daddr buf == lb.addr
    then (find_index (has_pseudo_port (dest buf)) clients >>= λ i. some serv2clnt)
    else none

unfoldable pub check_type : List ℕ → TcpType
check_type buf =
    if syn_flag buf == 1 && ack_flag buf == 0
    then syn
    else if syn_flag buf == 1 && ack_flag buf == 1
    then syn_ack
    else if fin_flag buf == 1
    then fin
    else if ack_flag buf == 1
    then ack
    else payload

-- sizeof(struct pseudo_header)
abbrev pub pseudo_size : ℕ
pseudo_size = 12

-- The twelve bytes that the function writes; protocol 6 is TCP.
unfoldable pub make_pseudo_header : ℕ → ℕ → ℕ → ℕ → List ℕ
make_pseudo_header from to protocol tcp_len =
    let blank = replicate pseudo_size 0 in
    let addressed = store32 (store32 blank 0 from) 4 to in
    store16 (store8 (store8 addressed 8 0) 9 protocol) 10 (swap16 (u16 tcp_len))

-- The new destination and ports of the packet.
pub record Rewrite : Type 0 where
  pub to_addr : ℕ
  pub to_port : ℕ
  pub from_port : ℕ

unfoldable pub translation : LbAddr → Direction → ℕ → ℕ → Balancer → Option Rewrite
translation lb clnt2serv source_id dest_id s = do
  server ← get_elem? s.servers dest_id
  client ← get_elem? s.clients source_id
  some (record { to_addr = server.ip; to_port = server.port; from_port = u16 client.pseudo_port })
translation lb serv2clnt source_id dest_id s = do
  client ← get_elem? s.clients dest_id
  some (record { to_addr = client.ip; to_port = u16 client.port; from_port = lb.port })

-- The address fields and the zeroed check fields.
unfoldable pub rewrite : LbAddr → Rewrite → List ℕ → List ℕ
rewrite lb r buf =
    let there =
      store16 (store32 (store32 buf saddr_at lb.addr) daddr_at r.to_addr) dest_at r.to_port in
    store16 (store16 (store16 there source_at r.from_port) ip_check_at 0) tcp_check_at 0

-- The buffer that the TCP checksum runs over: the pseudo header and the segment.
unfoldable pub segment : LbAddr → ℕ → List ℕ → List ℕ
unfolding make_pseudo_header
segment lb tcp_len buf =
    make_pseudo_header lb.addr (daddr buf) 6 tcp_len ++ take tcp_len (drop ip_header_size buf)

unfoldable pub fill_checks : LbAddr → ℕ → List ℕ → List ℕ
fill_checks lb tcp_len buf =
    let sealed = store16 buf tcp_check_at (checksum (segment lb tcp_len buf)) in
    store16 sealed ip_check_at (checksum (take ip_header_size sealed))

-- `ntohs(ip->tot_len) - ip->ihl * 4`; a negative length, or one past the buffer, makes `memcpy`
-- leave the buffer.
unfoldable pub tcp_length : List ℕ → Option ℕ
tcp_length buf =
    let header = ihl buf * 4 in
    if ltb (swap16 (tot_len buf)) header
    then none
    else if leb (ip_header_size + (swap16 (tot_len buf) - header)) (length buf)
    then some (swap16 (tot_len buf) - header)
    else none

unfoldable pub nat : LbAddr → Direction → ℕ → ℕ → Balancer → List ℕ → Option (List ℕ)
unfolding translation rewrite fill_checks tcp_length
nat lb dir source_id dest_id s buf = do
  tcp_len ← tcp_length buf
  r ← translation lb dir source_id dest_id s
  some (fill_checks lb tcp_len (rewrite lb r buf))
