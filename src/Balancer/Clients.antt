-- ===== src/Balancer/Clients.antt =====
-- A packet on the raw socket: lines 460-539 of `main` in L4LB/LoadBalancer.c, and `add_new_clnt`.
-- Not under src/ and so parameters: what the first `rand` after `srand` of a seed returns.
use io_t_lab.Common.{
  ℕ, ◌+◌, ◌%◌, List, [], ◌∷◌, Option, none, some, Bool, true, false, ◌&&◌, ◌||◌, not, ◌==◌,
  if◌then◌else◌, ◌>>=◌, incr, decr, minus_one, get_elem?, set, take, find_index,
}
use io_t_lab.Net.Header.{saddr, daddr, source, dest}
use io_t_lab.Balancer.{Balancer, Client, SockAddr, no_client, max_clnt}
use io_t_lab.Balancer.Select.{select_serv}
use io_t_lab.Balancer.Nat.{
  Direction, clnt2serv, serv2clnt, TcpType, syn, ack, fin, LbAddr, check_ip_and_port, check_type,
  nat, has_pseudo_port,
}

-- What `recv` leaves in `buf`, how many bytes it reports, and `time(0)`.
pub record Packet : Type 0 where
  pub buf : List ℕ
  pub received : ℕ
  pub now : ℕ

-- A `sendto` on the raw socket.
pub record Sent : Type 0 where
  pub bytes : List ℕ
  pub to : SockAddr

-- Whether the loop over the ready events goes on after this one, or is left by `break`.
pub data Flow : Type 0 where
  next leave : Flow

pub record Effect : Type 0 where
  pub state : Balancer
  pub sent : List Sent
  pub flow : Flow

abbrev pub is_fin : TcpType → Bool
is_fin fin = true
is_fin _ = false

abbrev pub is_ack : TcpType → Bool
is_ack ack = true
is_ack _ = false

abbrev pub is_syn : TcpType → Bool
is_syn syn = true
is_syn _ = false

-- A write to a field of an array element.
abbrev pub update {ℓ} : {A : Type ℓ} → List A → ℕ → (A → A) → Option (List A)
update xs i f = get_elem? xs i >>= λ x. some (set xs i (f x))

-- `AF_INET`
abbrev pub af_inet : ℕ
af_inet = 2

abbrev pub has_port : ℕ → Client → Bool
has_port p c = c.port == p

-- `forwarding_table[id][1] = 1` for a FIN.
unfoldable pub mark_closing : TcpType → ℕ → Balancer → Option Balancer
mark_closing type id s =
    if is_fin type
    then (update s.table id (λ e. record e { phase = 1 }) >>= λ table.
        some (record s { table = table }))
    else some s

-- `serv_list[server_id].clnt_cnt--`, the cleared client slot and `clnt_cnt--`. The two lines that
-- mean to reset the row of the forwarding table compare instead of assigning.
unfoldable pub disconnect : ℕ → ℕ → Balancer → Option Balancer
disconnect client_id server_id s = do
  servers ← update s.servers server_id (λ v. record v { clnt_cnt = decr v.clnt_cnt })
  some (record s {
    servers = servers;
    clients = set s.clients client_id no_client;
    clnt_cnt = decr s.clnt_cnt;
  })

-- Lines 496-508, for the client in slot `source_id`.
unfoldable pub forward_to_server : LbAddr → TcpType → Packet → ℕ → Balancer → Option Effect
unfolding disconnect
forward_to_server lb type p source_id s = do
  entry ← get_elem? s.table source_id
  packet ← nat lb clnt2serv source_id entry.server s p.buf
  server ← get_elem? s.servers entry.server
  let sent = record { bytes = take p.received packet; to = server.sock_adr } ∷ []
  if is_ack type && entry.phase == 1
      then (disconnect source_id entry.server s >>= λ s'.
          some (record { state = s'; sent = sent; flow = next }))
      else some (record { state = s; sent = sent; flow = next })

module _ (first_rand : ℕ → ℕ) where
  -- `add_new_clnt`: the slot's new contents.
  unfoldable pub add_new_clnt : ℕ → List ℕ → Client
  add_new_clnt now buf = record {
    ip = saddr buf;
    port = source buf;
    pseudo_port = first_rand now % 16386 + 49152;
  }

  -- A SYN from an unknown client takes slot `id`.
  unfoldable pub admit : ℕ → Packet → ℕ → Balancer → Option Balancer
  unfolding add_new_clnt
  admit algo p id s = do
    let s' = record s {
      clients = set s.clients id (add_new_clnt p.now p.buf);
      clnt_cnt = incr s.clnt_cnt;
    }
    (server_id, recent) ← select_serv algo s'
    servers ← update s.servers server_id (λ v. record v { clnt_cnt = incr v.clnt_cnt })
    some (record s' {
      servers = servers;
      table = set s.table id (record { server = server_id; phase = 2 });
      recent_serv_id = recent;
    })

  -- Lines 478-492 and what follows, for a source port that no client has. A full client list with
  -- another count writes to row -1 of the table.
  unfoldable pub handle_new : ℕ → LbAddr → TcpType → Packet → Balancer → Option Effect
  unfolding admit forward_to_server
  handle_new algo lb type p s =
      if not (is_syn type) || s.clnt_cnt == max_clnt
      then some (record { state = s; sent = []; flow = next })
      else do
        id ← find_index (has_port 0) s.clients
        s' ← admit algo p id s
        forward_to_server lb type p id s'

  -- Lines 470-509.
  unfoldable pub handle_clnt2serv : ℕ → LbAddr → TcpType → Packet → Balancer → Option Effect
  unfolding mark_closing handle_new forward_to_server
  handle_clnt2serv algo lb type p s = elim (find_index (has_port (source p.buf)) s.clients) [
    | some id ↦ mark_closing type id s >>= λ s'. forward_to_server lb type p id s'
    | none ↦ handle_new algo lb type p s
  ]

-- Lines 510-538, with the `break` at their end.
unfoldable pub handle_serv2clnt : LbAddr → TcpType → Packet → Balancer → Option Effect
unfolding mark_closing disconnect
handle_serv2clnt lb type p s = do
  dest_id ← find_index (has_pseudo_port (dest p.buf)) s.clients
  entry ← get_elem? s.table dest_id
  s' ← mark_closing type dest_id s
  packet ← nat lb serv2clnt entry.server dest_id s' p.buf
  let to : SockAddr = record { family = af_inet; port = dest packet; addr = daddr packet }
  let sent = record { bytes = take p.received packet; to = to } ∷ []
  entry' ← get_elem? s'.table dest_id
  if is_ack type && entry'.phase == minus_one
      then (disconnect dest_id entry.server s' >>= λ s''.
          some (record { state = s''; sent = sent; flow = leave }))
      else some (record { state = s'; sent = sent; flow = leave })

unfoldable pub dispatch :
    (ℕ → ℕ) → ℕ → LbAddr → TcpType → Packet → Balancer → Direction → Option Effect
dispatch first_rand algo lb type p s clnt2serv = handle_clnt2serv first_rand algo lb type p s
dispatch first_rand algo lb type p s serv2clnt = handle_serv2clnt lb type p s

unfoldable pub handle_packet : (ℕ → ℕ) → ℕ → LbAddr → Packet → Balancer → Option Effect
unfolding handle_clnt2serv handle_serv2clnt dispatch
handle_packet first_rand algo lb p s = elim (check_ip_and_port lb s.clients p.buf) [
  | none ↦ some (record { state = s; sent = []; flow = next })
  | some dir ↦
      if s.serv_cnt == 0
      then some (record { state = s; sent = []; flow = next })
      else dispatch first_rand algo lb (check_type p.buf) p s dir
]
