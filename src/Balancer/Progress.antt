-- ===== src/Balancer/Progress.antt =====
-- When the handlers of L4LB/LoadBalancer.c stay clear of undefined behaviour.
pub mod Steps
pub mod Packets
use io_t_lab.Common.{
  ℕ, zero, suc, ◌+◌, ◌-◌, ◌%◌, ◌^◌, ◌<◌, ◌≤◌, ◌≡◌, ◌≢◌, refl, sym, ◌∙◌, ap, List, [], ◌∷◌, Option,
  some, none, Bool, true, false, arith, ◌==◌, ◌&&◌, ◌||◌, not, if◌then◌else◌, length, length-set,
  inl, inr, Bool-cases, Option-cases, subst-some, get_elem?, get_elem?-lt, get_elem?-of_lt,
  get_elem?-set_self, set, decr, incr, find_index, find_index_sound, ◌>>=◌, minus_one, Returns,
  Returns->>=, Returns-if, signed_key, Ensures-elim, Ensures, Ensures->>=,
}
use io_t_lab.Net.Header.{source, dest, daddr}
use io_t_lab.Balancer.{Balancer, Server, Client, Entry, max_serv, max_clnt}
use io_t_lab.Balancer.Select.{select_serv, rr, least_conn, resource_based}
use io_t_lab.Balancer.Nat.{
  TcpType, LbAddr, Direction, clnt2serv, serv2clnt, tcp_length, translation, nat, check_ip_and_port,
  check_type, has_pseudo_port,
}
use io_t_lab.Balancer.Clients.{
  Packet, Effect, add_new_clnt, admit, mark_closing, disconnect, forward_to_server, handle_new,
  handle_clnt2serv, handle_serv2clnt, dispatch, handle_packet, is_ack, is_syn, is_fin, has_port,
  update,
}
use io_t_lab.Balancer.Tables.{
  active, active-lt, active_count, server_at, server_at-eq, port_at, port_at-eq, port_at-set_self,
  phase_at-eq, IsPaired, IsPaired-get,
}
use io_t_lab.Balancer.Choice.Scan.{cost_at}
use io_t_lab.Balancer.Choice.Least.{some_active}
use io_t_lab.Balancer.Choice.Selected.{
  IsCounted, IsCounted-tables, select_serv-active, select_serv-IsNext, select_serv-least_conn,
  select_serv-resource_based,
}
use io_t_lab.Balancer.Invariant.{IsSound}
use io_t_lab.Balancer.Invariant.Parts.{mark_closing-IsSound}
use io_t_lab.Balancer.Invariant.Packets.{admit-IsSound}

-- Headers as the kernel delivers them: the lengths fit the buffer, and no port is 0.
pub record IsWhole (buf : List ℕ) : Type 0 where
  pub sized : Returns (tcp_length buf)
  pub sourced : source buf ≢ 0
  pub destined : dest buf ≢ 0

-- Every connected server has fewer than MAX_CLNT_CNT clients and reports less than INT_MAX.
pub record IsModest (servers : List Server) : Type 0 where
  pub uncrowded :
      (m : ℕ)
      → active servers m ≡ true
      → signed_key (cost_at (λ v. v.clnt_cnt) servers m) < signed_key max_clnt
  pub unloaded :
      (m : ℕ)
      → active servers m ≡ true
      → signed_key (cost_at (λ v. v.resource_usage) servers m) < signed_key (2 ^ 31 - 1)

-- `clnt_cnt` below MAX_CLNT_CNT means that a slot is free.
abbrev pub HasRoom : Balancer → Type 0
HasRoom s = s.clnt_cnt ≢ max_clnt → Returns (find_index (has_port 0) s.clients)
