-- ===== src/Balancer/Invariant/Packets.antt =====
-- The invariant through the handling of a packet.
use io_t_lab.Common.{
  ℕ, ◌<◌, ◌≡◌, ◌≢◌, refl, ◌∙◌, Option, some, true, arith, ◌==◌, ◌&&◌, ◌||◌, not, length-set, inl,
  inr, Option-cases, subst-some, get_elem?, get_elem?-lt, set, incr, find_index, find_index_sound,
  find_index-none, All-set, none, minus_one, Ensures, Ensures->>=, Ensures-if,
}
use native.Mathlib.Decide.{ℕ_discrete}
use io_t_lab.Net.Header.{source, dest}
use io_t_lab.Balancer.{Balancer, Client, Entry, max_serv, max_clnt}
use io_t_lab.Balancer.Select.{select_serv}
use io_t_lab.Balancer.Nat.{
  TcpType, LbAddr, Direction, clnt2serv, serv2clnt, nat, check_ip_and_port, check_type,
  has_pseudo_port,
}
use io_t_lab.Balancer.Clients.{
  Packet, Effect, add_new_clnt, admit, mark_closing, disconnect, forward_to_server, handle_new,
  handle_clnt2serv, handle_serv2clnt, dispatch, handle_packet, is_ack, is_syn, has_port,
}
use io_t_lab.Balancer.Tables.{
  active, active-eq-is_active, active-set_same, server_at-set_self, server_at-set_ne,
  port_at-set_ne, phase_at-set_self, phase_at-set_ne, IsPaired,
}
use io_t_lab.Balancer.Choice.Selected.{IsCounted-tables, select_serv-active}
use io_t_lab.Balancer.Invariant.{IsSound}
use io_t_lab.Balancer.Invariant.Parts.{set_server-IsSound, mark_closing-IsSound, disconnect-IsSound}

-- A client put into slot `i`, with a row that names a connected server.
pub bind_client-IsSound :
    (s : Balancer) (i cnt recent : ℕ) (c : Client) (x : Entry)
    → i < max_clnt
    → recent < max_serv
    → active s.servers x.server ≡ true
    → x.phase ≢ minus_one
    → c.port ≢ 0
    → IsSound s
    → IsSound (record s {
      clients = set s.clients i c;
      clnt_cnt = cnt;
      table = set s.table i x;
      recent_serv_id = recent;
    })
bind_client-IsSound s i cnt recent c x inside chosen up open_row named ok = record {
  servers_ok = record {
    slots = ok.servers_ok.slots;
    counted = ok.servers_ok.counted;
    recent = chosen;
  };
  slots = length-set s.clients i c ∙ ok.slots;
  rows = length-set s.table i x ∙ ok.rows;
  bound = λ j used. elim (ℕ_discrete i j) [
    | yes same ↦ rw (← same, server_at-set_self s.table i x (omega (arith, ok.rows))) up
    | no other ↦
        rw (server_at-set_ne s.table i j x other)
          (ok.bound j (rw (port_at-set_ne s.clients i j c other) at used))
  ];
  marked = λ j used. elim (ℕ_discrete i j) [
    | yes same ↦ rw (← same, phase_at-set_self s.table i x (omega (arith, ok.rows))) open_row
    | no other ↦
        rw (phase_at-set_ne s.table i j x other)
          (ok.marked j (rw (port_at-set_ne s.clients i j c other) at used))
  ];
  paired = All-set IsPaired s.clients i c (λ free. absurd (named free)) ok.paired;
}

-- Whatever the handler returns leaves the tables sound.
abbrev pub Keeps : Option Effect → Type 0
Keeps = Ensures (λ (e : Effect). IsSound e.state)

forward_to_server-IsSound :
    (lb : LbAddr) (type : TcpType) (p : Packet) (id : ℕ) (s : Balancer)
    → IsSound s
    → Keeps (forward_to_server lb type p id s)
unfolding forward_to_server
forward_to_server-IsSound lb type p id s ok = Ensures->>= _ (get_elem? s.table id) _ λ x _.
    Ensures->>= _ (nat lb clnt2serv id x.server s p.buf) _ λ packet _.
      Ensures->>= _ (get_elem? s.servers x.server) _ λ v _.
        Ensures-if _ (is_ack type && x.phase == 1) _ _
          (λ _.
            Ensures->>= _ (disconnect id x.server s) _ λ t e. disconnect-IsSound id x.server s e ok)
          (λ _. ok)

pub handle_serv2clnt-IsSound :
    (lb : LbAddr) (type : TcpType) (p : Packet) (s : Balancer)
    → IsSound s
    → Keeps (handle_serv2clnt lb type p s)
unfolding handle_serv2clnt
handle_serv2clnt-IsSound lb type p s ok =
    Ensures->>= _ (find_index (has_pseudo_port (dest p.buf)) s.clients) _ λ id _.
      Ensures->>= _ (get_elem? s.table id) _ λ x _.
        Ensures->>= _ (mark_closing type id s) _ λ t marked.
          let ok' = mark_closing-IsSound type id s marked ok in
          Ensures->>= _ (nat lb serv2clnt x.server id t p.buf) _ λ packet _.
            Ensures->>= _ (get_elem? t.table id) _ λ y _.
              Ensures-if _ (is_ack type && y.phase == minus_one) _ _
                (λ _.
                  Ensures->>= _ (disconnect id x.server t) _
                    λ u e. disconnect-IsSound id x.server t e ok')
                (λ _. ok')

module _ (first_rand : ℕ → ℕ) (algo : ℕ) (known : algo < 3) where
  pub admit-IsSound :
      (p : Packet) (id : ℕ) (s : Balancer) {t : Balancer}
      → id < max_clnt
      → s.serv_cnt ≢ 0
      → source p.buf ≢ 0
      → admit first_rand algo p id s ≡ some t
      → IsSound s
      → IsSound t
  unfolding admit
  admit-IsSound p id s {t} inside busy named e ok = elim (Option-cases (select_serv algo s')) [
    | inl fault ↦ absurd (ground arith)
    | inr (choice, chosen) ↦ elim (Option-cases (get_elem? s.servers choice.0)) [
      | inl fault ↦ absurd (ground arith)
      | inr (v, at) ↦
          let good =
            select_serv-active s' (IsCounted-tables s _ _ s.table ok.servers_ok) busy algo choice.0
              choice.1 known chosen in
          subst-some IsSound (rw (chosen, at) at e) (
            bind_client-IsSound
              (record s {
                servers = set s.servers choice.0 (record v { clnt_cnt = incr v.clnt_cnt });
              })
              id (incr s.clnt_cnt) choice.1 (add_new_clnt first_rand p.now p.buf) _ inside good.1
              (active-set_same s.servers choice.0 choice.0 _
                  (active-eq-is_active s.servers choice.0 at)
                ∙ good.0)
              (omega arith) named (set_server-IsSound s choice.0 v _ at refl ok))
    ]
  ]
    where
      s' : Balancer
      s' = record s {
        clients = set s.clients id (add_new_clnt first_rand p.now p.buf);
        clnt_cnt = incr s.clnt_cnt;
      }

  handle_new-IsSound :
      (lb : LbAddr) (type : TcpType) (p : Packet) (s : Balancer)
      → s.serv_cnt ≢ 0
      → find_index (has_port (source p.buf)) s.clients ≡ none
      → IsSound s
      → Keeps (handle_new first_rand algo lb type p s)
  unfolding handle_new
  handle_new-IsSound lb type p s busy unknown ok =
      Ensures-if _ (not (is_syn type) || s.clnt_cnt == max_clnt) _ _ (λ _. ok)
        λ _. Ensures->>= _ (find_index (has_port 0) s.clients) _ λ id found.
          Ensures->>= _ (admit first_rand algo p id s) _ λ t admitted.
            forward_to_server-IsSound lb type p id t (
              admit-IsSound p id s (free_slot id (find_index_sound (has_port 0) s.clients id found))
                busy (new_port id unknown (find_index_sound (has_port 0) s.clients id found))
                admitted ok)
    where
      new_port :
          (id : ℕ)
          → find_index (has_port (source p.buf)) s.clients ≡ none
          → ((c : Client) × (get_elem? s.clients id ≡ some c) × (has_port 0 c ≡ true))
          → source p.buf ≢ 0
      new_port id unknown (c, at, free) zero_port =
          ground (arith, find_index-none (has_port (source p.buf)) s.clients id unknown at)

      free_slot :
          (id : ℕ)
          → ((c : Client) × (get_elem? s.clients id ≡ some c) × (has_port 0 c ≡ true))
          → id < max_clnt
      free_slot id (c, at, _) = omega (arith, get_elem?-lt s.clients id at, ok.slots)

  handle_clnt2serv-IsSound :
      (lb : LbAddr) (type : TcpType) (p : Packet) (s : Balancer)
      → s.serv_cnt ≢ 0
      → IsSound s
      → Keeps (handle_clnt2serv first_rand algo lb type p s)
  unfolding handle_clnt2serv
  handle_clnt2serv-IsSound lb type p s busy ok =
      elim (Option-cases (find_index (has_port (source p.buf)) s.clients)) [
        | inl unknown ↦
            rw (unknown, handle_clnt2serv) (handle_new-IsSound lb type p s busy unknown ok)
        | inr (id, found) ↦
            rw (found, handle_clnt2serv)
              (Ensures->>= _ (mark_closing type id s) _ λ t marked.
                forward_to_server-IsSound lb type p id t (mark_closing-IsSound type id s marked ok))
      ]

  dispatch-IsSound :
      (lb : LbAddr) (type : TcpType) (p : Packet) (s : Balancer) (dir : Direction)
      → s.serv_cnt ≢ 0
      → IsSound s
      → Keeps (dispatch first_rand algo lb type p s dir)
  unfolding dispatch
  dispatch-IsSound lb type p s clnt2serv busy ok = handle_clnt2serv-IsSound lb type p s busy ok
  dispatch-IsSound lb type p s serv2clnt busy ok = handle_serv2clnt-IsSound lb type p s ok

  pub handle_packet-IsSound :
      (lb : LbAddr) (p : Packet) (s : Balancer)
      → IsSound s
      → Keeps (handle_packet first_rand algo lb p s)
  unfolding handle_packet
  handle_packet-IsSound lb p s ok = elim (Option-cases (check_ip_and_port lb s.clients p.buf)) [
    | inl stray ↦ rw (stray, handle_packet) ok
    | inr (dir, ours) ↦
        rw (ours, handle_packet)
          (Ensures-if _ (s.serv_cnt == 0) _ _ (λ _. ok)
            λ busy. dispatch-IsSound lb (check_type p.buf) p s dir (ground arith) ok)
  ]
