-- ===== src/Balancer/Servers.antt =====
-- `add_server_info` and `delete_server_node` of L4LB/LoadBalancer.c.
use io_t_lab.Common.{ℕ, List, [], ◌∷◌, ◌==◌, if◌then◌else◌, u16, incr, decr, set}
use io_t_lab.Balancer.{Balancer, Server, no_server}

-- The loop that fills the first free slot.
unfoldable pub fill_slot : ℕ → ℕ → ℕ → List Server → List Server
fill_slot sock ip port [] = []
fill_slot sock ip port (v ∷ vs) =
    if v.sock == 0
    then record v { sock = sock; ip = ip; port = u16 port; clnt_cnt = 0 } ∷ vs
    else v ∷ fill_slot sock ip port vs

unfoldable pub add_server_info : ℕ → ℕ → ℕ → Balancer → Balancer
unfolding fill_slot
add_server_info sock ip port s = record s {
  servers = fill_slot sock ip port s.servers;
  serv_cnt = incr s.serv_cnt;
}

unfoldable pub delete_server_node : ℕ → Balancer → Balancer
delete_server_node id s = record s {
  serv_cnt = decr s.serv_cnt;
  servers = set s.servers id no_server;
}
