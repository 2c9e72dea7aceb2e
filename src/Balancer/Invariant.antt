-- ===== src/Balancer/Invariant.antt =====
-- The tables of L4LB/LoadBalancer.c fit together, and no event breaks that.
pub mod Parts
pub mod Reports
pub mod Packets
pub mod Events
use io_t_lab.Common.{ℕ, ◌≡◌, ◌≢◌, length, true, minus_one, All}
use io_t_lab.Balancer.{Balancer, max_clnt}
use io_t_lab.Balancer.Tables.{active, port_at, server_at, phase_at, IsPaired}
use io_t_lab.Balancer.Choice.Selected.{IsCounted}

pub record IsSound (s : Balancer) : Type 0 where
  -- Five server slots, `serv_cnt` counts those in use, and the last choice is one of them.
  pub servers_ok : IsCounted s
  pub slots : length s.clients ≡ max_clnt
  pub rows : length s.table ≡ max_clnt
  -- The row of every client in use names a connected server.
  pub bound : (j : ℕ) → port_at s.clients j ≢ 0 → active s.servers (server_at s.table j) ≡ true
  -- That row is never marked unused, and free slots have no pseudo port.
  pub marked : (j : ℕ) → port_at s.clients j ≢ 0 → phase_at s.table j ≢ minus_one
  pub paired : All IsPaired s.clients
