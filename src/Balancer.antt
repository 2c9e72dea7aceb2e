-- ===== src/Balancer.antt =====
-- L4LB/LoadBalancer.c: the tables of the layer-4 load balancer.
-- `none` stands for undefined behaviour: an access outside an array, a variable that was never
-- set, or a loop that does not end.
pub mod Servers
pub mod Select
pub mod Nat
pub mod Clients
pub mod Ready
pub mod Loop
pub mod Tables
pub mod Choice
pub mod Invariant
pub mod Progress
pub mod Translate
pub mod Faults
pub mod Backends
mod Tests
use io_t_lab.Common.{ℕ, List, minus_one, replicate}

-- MAX_SERV_CNT and MAX_CLNT_CNT.
abbrev pub max_serv : ℕ
max_serv = 5

abbrev pub max_clnt : ℕ
max_clnt = 1000

-- The address that a `sendto` is given.
pub record SockAddr : Type 0 where
  pub family : ℕ
  pub port : ℕ
  pub addr : ℕ

-- `serv_list_node`; a slot with `sock` 0 is free.
pub record Server : Type 0 where
  pub sock : ℕ
  pub ip : ℕ
  pub port : ℕ
  pub clnt_cnt : ℕ
  pub sock_adr : SockAddr
  pub resource_usage : ℕ

-- `clnt_list_node`; a slot with `port` 0 is free.
pub record Client : Type 0 where
  pub ip : ℕ
  pub port : ℕ
  pub pseudo_port : ℕ

-- A row of `forwarding_table`: the server, and 2 for open, 1 for closing, -1 for unused.
pub record Entry : Type 0 where
  pub server : ℕ
  pub phase : ℕ

-- The globals.
pub record Balancer : Type 0 where
  pub servers : List Server
  pub serv_cnt : ℕ
  pub clients : List Client
  pub clnt_cnt : ℕ
  pub table : List Entry
  pub recent_serv_id : ℕ

abbrev pub no_addr : SockAddr
no_addr = record { family = 0; port = 0; addr = 0 }

-- What `memset` to 0 leaves.
abbrev pub no_server : Server
no_server = record {
  sock = 0;
  ip = 0;
  port = 0;
  clnt_cnt = 0;
  sock_adr = no_addr;
  resource_usage = 0;
}

abbrev pub no_client : Client
no_client = record { ip = 0; port = 0; pseudo_port = 0 }

abbrev pub no_entry : Entry
no_entry = record { server = minus_one; phase = minus_one }

-- The state when `main` enters its loop.
unfoldable pub initial : Balancer
initial = record {
  servers = replicate max_serv no_server;
  serv_cnt = 0;
  clients = replicate max_clnt no_client;
  clnt_cnt = 0;
  table = replicate max_clnt no_entry;
  recent_serv_id = 0;
}
