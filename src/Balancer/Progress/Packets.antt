-- ===== src/Balancer/Progress/Packets.antt =====
-- A packet is handled without undefined behaviour.
use io_t_lab.Common.{
  ℕ, ◌<◌, ◌≡◌, ◌≢◌, refl, sym, ◌∙◌, some, true, arith, ◌==◌, ◌||◌, not, length, inl, inr,
  Option-cases, get_elem?, get_elem?-lt, get_elem?-of_lt, set, incr, find_index, find_index_sound,
  ◌>>=◌, Returns, Returns->>=, Returns-if, Ensures-elim, Ensures, Ensures->>=,
}
use io_t_lab.Net.Header.{source}
use io_t_lab.Balancer.{Balancer, Client, max_clnt}
use io_t_lab.Balancer.Select.{select_serv}
use io_t_lab.Balancer.Nat.{
  TcpType, LbAddr, Direction, clnt2serv, serv2clnt, check_ip_and_port, check_type,
}
use io_t_lab.Balancer.Clients.{
  Packet, add_new_clnt, admit, mark_closing, forward_to_server, handle_new, handle_clnt2serv,
  dispatch, handle_packet, is_syn, has_port, update,
}
use io_t_lab.Balancer.Tables.{port_at, port_at-eq, port_at-set_self}
use io_t_lab.Balancer.Choice.Selected.{IsCounted, IsCounted-tables, select_serv-active}
use io_t_lab.Balancer.Invariant.{IsSound}
use io_t_lab.Balancer.Invariant.Parts.{mark_closing-IsSound}
use io_t_lab.Balancer.Invariant.Packets.{admit-IsSound}
use io_t_lab.Balancer.Progress.{IsWhole, IsModest, HasRoom}
use io_t_lab.Balancer.Progress.Steps.{
  check_ip_and_port-reply, select_serv-Returns, get-Returns, update-Returns, mark_closing-Returns,
  mark_closing-clients, forward_to_server-Returns, handle_serv2clnt-Returns,
}

module _ (first_rand : ℕ → ℕ) (algo : ℕ) (known : algo < 3) where
  admit-Returns :
      (p : Packet) (id : ℕ) (s : Balancer)
      → s.serv_cnt ≢ 0
      → IsModest s.servers
      → IsSound s
      → Returns (admit first_rand algo p id s)
  unfolding admit
  admit-Returns p id s busy modest ok =
      Returns->>= (select_serv algo s') _ (select_serv-Returns algo s' known counted busy modest)
        λ choice chosen.
          Returns->>= (update s.servers choice.0 _) _
            (update-Returns s.servers choice.0 _ (
              get-Returns s.servers choice.0
                (select_serv-active s' counted busy algo choice.0 choice.1 known chosen).0))
            λ vs _. (_, refl)
    where
      s' : Balancer
      s' = record s {
        clients = set s.clients id (add_new_clnt first_rand p.now p.buf);
        clnt_cnt = incr s.clnt_cnt;
      }

      counted : IsCounted s'
      counted = IsCounted-tables s _ _ s.table ok.servers_ok

  admit-port :
      (p : Packet) (id : ℕ) (s : Balancer)
      → id < length s.clients
      → Ensures
          (λ (t : Balancer). port_at t.clients id ≡ source p.buf)
          (admit first_rand algo p id s)
  unfolding admit add_new_clnt
  admit-port p id s inside = Ensures->>= _ (select_serv algo _) _ λ choice _.
      Ensures->>= _ (update s.servers choice.0 _) _
        λ vs _. port_at-set_self s.clients id (add_new_clnt first_rand p.now p.buf) inside

  handle_new-Returns :
      (lb : LbAddr) (type : TcpType) (p : Packet) (s : Balancer)
      → s.serv_cnt ≢ 0
      → HasRoom s
      → IsModest s.servers
      → IsWhole p.buf
      → IsSound s
      → Returns (handle_new first_rand algo lb type p s)
  unfolding handle_new
  handle_new-Returns lb type p s busy room modest whole ok =
      Returns-if (not (is_syn type) || s.clnt_cnt == max_clnt) _ _ (λ _. (_, refl))
        λ fresh. Returns->>= (find_index (has_port 0) s.clients) _ (room (ground arith)) λ id found.
          let (c, at, hit) = find_index_sound (has_port 0) s.clients id found in
          let inside : id < length s.clients = get_elem?-lt s.clients id at in
          Returns->>= (admit first_rand algo p id s) _ (admit-Returns p id s busy modest ok)
            λ t admitted.
              let named =
                Ensures-elim _ (admit first_rand algo p id s) t admitted
                  (admit-port p id s inside) in
              let below : id < max_clnt = omega (arith, ok.slots) in
              forward_to_server-Returns lb type p id t
                (admit-IsSound first_rand algo known p id s below busy whole.sourced admitted ok)
                whole.sized below (λ free. whole.sourced (sym named ∙ free))

  handle_clnt2serv-Returns :
      (lb : LbAddr) (type : TcpType) (p : Packet) (s : Balancer)
      → s.serv_cnt ≢ 0
      → HasRoom s
      → IsModest s.servers
      → IsWhole p.buf
      → IsSound s
      → Returns (handle_clnt2serv first_rand algo lb type p s)
  unfolding handle_clnt2serv
  handle_clnt2serv-Returns lb type p s busy room modest whole ok =
      elim (Option-cases (find_index (has_port (source p.buf)) s.clients)) [
        | inl unknown ↦
            rw (unknown, handle_clnt2serv)
              (handle_new-Returns lb type p s busy room modest whole ok)
        | inr (id, found) ↦
            rw (found, handle_clnt2serv)
              (old id (find_index_sound (has_port (source p.buf)) s.clients id found))
      ]
    where
      old :
          (id : ℕ)
          → ((c : Client) × (get_elem? s.clients id ≡ some c) × (has_port (source p.buf) c ≡ true))
          → Returns (mark_closing type id s >>= λ t. forward_to_server lb type p id t)
      old id (c, at, hit) =
          let below : id < max_clnt = omega (arith, get_elem?-lt s.clients id at, ok.slots) in
          let used : port_at s.clients id ≢ 0 =
            λ free. whole.sourced (ground (arith, port_at-eq s.clients id at)) in
          Returns->>= (mark_closing type id s) _
            (mark_closing-Returns type id s (get_elem?-of_lt s.table id (omega (arith, ok.rows))))
            λ t marked.
              forward_to_server-Returns lb type p id t (mark_closing-IsSound type id s marked ok)
                whole.sized below (rw (← mark_closing-clients type id s marked) at used)

  -- With sound tables, a free slot while the count leaves room, servers below their bounds and a
  -- packet with sane headers, the handler of the raw socket returns: it reads no unset variable,
  -- stays inside every array, and its search for a server ends.
  pub handle_packet-Returns :
      (lb : LbAddr) (p : Packet) (s : Balancer)
      → HasRoom s
      → IsModest s.servers
      → IsWhole p.buf
      → IsSound s
      → Returns (handle_packet first_rand algo lb p s)
  unfolding handle_packet dispatch
  handle_packet-Returns lb p s room modest whole ok =
      elim (Option-cases (check_ip_and_port lb s.clients p.buf)) [
        | inl stray ↦ rw (stray, handle_packet) (_, refl)
        | inr (dir, ours) ↦
            rw (ours, handle_packet)
              (Returns-if (s.serv_cnt == 0) _ _ (λ _. (_, refl))
                λ busy. dispatched dir ours (ground arith))
      ]
    where
      dispatched :
          (dir : Direction)
          → check_ip_and_port lb s.clients p.buf ≡ some dir
          → s.serv_cnt ≢ 0
          → Returns (dispatch first_rand algo lb (check_type p.buf) p s dir)
      dispatched clnt2serv ours busy =
          handle_clnt2serv-Returns lb (check_type p.buf) p s busy room modest whole ok
      dispatched serv2clnt ours busy =
          handle_serv2clnt-Returns lb (check_type p.buf) p s ok whole
            (check_ip_and_port-reply lb s.clients p.buf ours)
