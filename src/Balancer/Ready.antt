-- ===== src/Balancer/Ready.antt =====
-- The two other branches of the event loop of L4LB/LoadBalancer.c: a server that connects, and a
-- connected server that reports its load or closes.
use io_t_lab.Common.{
  ℕ, List, [], ◌∷◌, Option, some, Bool, ◌==◌, if◌then◌else◌, ◌>>=◌, decr, swap16, get_elem?, set,
  find_index,
}
use io_t_lab.Balancer.{Balancer, Server, Client, Entry, no_client, no_entry, max_serv}
use io_t_lab.Balancer.Servers.{add_server_info, delete_server_node}

-- An accepted connection, with the port that the server sends (host order).
pub record Accepted : Type 0 where
  pub sock : ℕ
  pub ip : ℕ
  pub server_port : ℕ

-- Lines 437-459; at MAX_SERV_CNT the connection is closed again.
unfoldable pub handle_accept : Accepted → Balancer → Balancer
handle_accept a s =
    if s.serv_cnt == max_serv then s else add_server_info a.sock a.ip (swap16 a.server_port) s

-- A `read` that goes round the loop once more: an error other than EAGAIN, or a load report, with
-- the `received_usage` that it leaves.
pub data Progress : Type 0 where
  failed : Progress
  usage : ℕ → Progress

-- The `read` that ends the loop: end of file, or EAGAIN.
pub data Ending : Type 0 where
  closed again : Ending

-- A ready descriptor and what its `read`s return until the loop ends.
pub record Ready : Type 0 where
  pub fd : ℕ
  pub progress : List Progress
  pub ending : Ending

abbrev pub has_sock : ℕ → Server → Bool
has_sock fd v = v.sock == fd

-- `serv_list[server_id].resource_usage = received_usage`; `server_id` is unset if no slot holds
-- the descriptor.
unfoldable pub report : Option ℕ → ℕ → Balancer → Option Balancer
report id load s = do
  i ← id
  v ← get_elem? s.servers i
  some (record s { servers = set s.servers i (record v { resource_usage = load }) })

unfoldable pub read_loop : Option ℕ → List Progress → Balancer → Option Balancer
unfolding report
read_loop id [] s = some s
read_loop id (failed ∷ rest) s = read_loop id rest s
read_loop id (usage load ∷ rest) s = report id load s >>= read_loop id rest

-- What the loop over `forwarding_table` changes.
pub record Cleared : Type 0 where
  pub clients : List Client
  pub table : List Entry
  pub clnt_cnt : ℕ

-- Lines 554-562: every row of the closed server is reset with its client.
unfoldable pub clear_clients : ℕ → List Client → List Entry → ℕ → Cleared
clear_clients id (c ∷ cs) (e ∷ es) cnt =
    let rest = clear_clients id cs es (if e.server == id then decr cnt else cnt) in
    if e.server == id
    then record {
      clients = no_client ∷ rest.clients;
      table = no_entry ∷ rest.table;
      clnt_cnt = rest.clnt_cnt;
    }
    else record { clients = c ∷ rest.clients; table = e ∷ rest.table; clnt_cnt = rest.clnt_cnt }
clear_clients id cs es cnt = record { clients = cs; table = es; clnt_cnt = cnt }

-- Lines 550-566.
unfoldable pub close_server : Option ℕ → Balancer → Option Balancer
unfolding clear_clients delete_server_node
close_server id s = do
  i ← id
  let cleared = clear_clients i s.clients s.table s.clnt_cnt
  some (
      delete_server_node i (record s {
        clients = cleared.clients;
        table = cleared.table;
        clnt_cnt = cleared.clnt_cnt;
      }))

-- What the last `read` makes of it.
unfoldable pub finish : Ending → Option ℕ → Balancer → Option Balancer
finish again id s = some s
finish closed id s = close_server id s

unfoldable pub handle_ready : Ready → Balancer → Option Balancer
unfolding read_loop close_server finish
handle_ready r s =
    let id = find_index (has_sock r.fd) s.servers in
    read_loop id r.progress s >>= λ s'. finish r.ending id s'
