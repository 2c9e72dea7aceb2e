-- ===== src/Balancer/Invariant/Parts.antt =====
-- The invariant through the operations on the tables.
use io_t_lab.Common.{
  ℕ, ◌≡◌, ◌≢◌, refl, sym, ◌∙◌, some, arith, ◌==◌, length-set, inl, inr, Bool-cases, Option-cases,
  subst-some, All-set, get_elem?-lt, get_elem?, set, decr, swap16,
}
use native.Mathlib.Decide.{ℕ_discrete}
use io_t_lab.Balancer.{Balancer, Server, max_serv, no_client}
use io_t_lab.Balancer.Select.{is_active}
use io_t_lab.Balancer.Servers.{add_server_info}
use io_t_lab.Balancer.Nat.{TcpType}
use io_t_lab.Balancer.Clients.{mark_closing, disconnect, is_fin}
use io_t_lab.Balancer.Ready.{Accepted, handle_accept}
use io_t_lab.Balancer.Tables.{
  active, active_count-le, active-eq-is_active, active-set_same, active_count-set_same,
  length-fill_slot, active-fill_slot, active_count-fill_slot, server_at, server_at-set_phase,
  phase_at-set_self, phase_at-set_ne, IsPaired, port_at-clear,
}
use io_t_lab.Balancer.Choice.Selected.{IsCounted-tables}
use io_t_lab.Balancer.Invariant.{IsSound}

pub add_server_info-IsSound :
    (sock ip port : ℕ) (s : Balancer)
    → sock ≢ 0
    → s.serv_cnt ≢ max_serv
    → IsSound s
    → IsSound (add_server_info sock ip port s)
unfolding add_server_info
add_server_info-IsSound sock ip port s named free ok = record {
  servers_ok = record {
    slots = length-fill_slot sock ip port s.servers ∙ ok.servers_ok.slots;
    counted = omega (
      arith,
      active_count-le s.servers,
      active_count-fill_slot sock ip port s.servers named,
      ok.servers_ok.counted,
      ok.servers_ok.slots,
    );
    recent = ok.servers_ok.recent;
  };
  slots = ok.slots;
  rows = ok.rows;
  bound = λ j used. active-fill_slot sock ip port s.servers (server_at s.table j) (ok.bound j used);
  marked = ok.marked;
  paired = ok.paired;
}

pub handle_accept-IsSound :
    (a : Accepted) (s : Balancer) → a.sock ≢ 0 → IsSound s → IsSound (handle_accept a s)
unfolding handle_accept
handle_accept-IsSound a s named ok = elim (Bool-cases (s.serv_cnt == max_serv)) [
  | inl full ↦ rw full ok
  | inr free ↦
      rw free (add_server_info-IsSound a.sock a.ip (swap16 a.server_port) s named (ground arith) ok)
]

-- A write to a server slot that keeps its socket.
pub set_server-IsSound :
    (s : Balancer) (i : ℕ) (v w : Server)
    → get_elem? s.servers i ≡ some v
    → w.sock ≡ v.sock
    → IsSound s
    → IsSound (record s { servers = set s.servers i w })
set_server-IsSound s i v w at same ok = record {
  servers_ok = record {
    slots = length-set s.servers i w ∙ ok.servers_ok.slots;
    counted = ok.servers_ok.counted ∙ sym (active_count-set_same s.servers i w kept);
    recent = ok.servers_ok.recent;
  };
  slots = ok.slots;
  rows = ok.rows;
  bound = λ j used. active-set_same s.servers i (server_at s.table j) w kept ∙ ok.bound j used;
  marked = ok.marked;
  paired = ok.paired;
}
  where
    kept : active s.servers i ≡ is_active w
    kept = active-eq-is_active s.servers i at ∙ ground arith

-- A cleared client slot.
pub clear_client-IsSound :
    (s : Balancer) (i cnt : ℕ)
    → IsSound s
    → IsSound (record s { clients = set s.clients i no_client; clnt_cnt = cnt })
clear_client-IsSound s i cnt ok = record {
  servers_ok = IsCounted-tables s _ cnt s.table ok.servers_ok;
  slots = length-set s.clients i no_client ∙ ok.slots;
  rows = ok.rows;
  bound = λ j used. ok.bound j (port_at-clear s.clients i j used);
  marked = λ j used. ok.marked j (port_at-clear s.clients i j used);
  paired = All-set IsPaired s.clients i no_client (λ _. refl) ok.paired;
}

-- A FIN marks a row, and keeps the servers that the rows name.
pub mark_closing-IsSound :
    (type : TcpType) (id : ℕ) (s : Balancer) {t : Balancer}
    → mark_closing type id s ≡ some t
    → IsSound s
    → IsSound t
unfolding mark_closing
mark_closing-IsSound type id s e ok = elim (Bool-cases (is_fin type)) [
  | inr other ↦ subst-some IsSound (rw other at e) ok
  | inl closing ↦ elim (Option-cases (get_elem? s.table id)) [
    | inl fault ↦ absurd (ground arith)
    | inr (x, at) ↦ subst-some IsSound (rw (closing, at) at e) (record {
      servers_ok = IsCounted-tables s s.clients s.clnt_cnt _ ok.servers_ok;
      slots = ok.slots;
      rows = length-set s.table id _ ∙ ok.rows;
      bound = λ j used. rw (server_at-set_phase s.table id j x 1 at) (ok.bound j used);
      marked = λ j used. elim (ℕ_discrete id j) [
        | yes same ↦
            rw (← same, phase_at-set_self s.table id _ (get_elem?-lt s.table id at)) (omega arith)
        | no other ↦ rw (phase_at-set_ne s.table id j _ other) (ok.marked j used)
      ];
      paired = ok.paired;
    })
  ]
]

pub disconnect-IsSound :
    (client_id server_id : ℕ) (s : Balancer) {t : Balancer}
    → disconnect client_id server_id s ≡ some t
    → IsSound s
    → IsSound t
unfolding disconnect
disconnect-IsSound client_id server_id s e ok =
    elim (Option-cases (get_elem? s.servers server_id)) [
      | inl fault ↦ absurd (ground arith)
      | inr (v, at) ↦ subst-some IsSound (rw at at e) (
          clear_client-IsSound _ client_id (decr s.clnt_cnt)
            (set_server-IsSound s server_id v _ at refl ok))
    ]
