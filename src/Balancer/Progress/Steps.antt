-- ===== src/Balancer/Progress/Steps.antt =====
-- The parts of the packet handlers return.
use io_t_lab.Common.{
  ℕ, zero, suc, ◌<◌, ◌≡◌, ◌≢◌, refl, sym, ◌∙◌, List, some, true, arith, ◌==◌, ◌&&◌, inl, inr,
  Option-cases, get_elem?, get_elem?-lt, get_elem?-of_lt, find_index, find_index_sound, minus_one,
  Returns, Returns->>=, Returns-if,
}
use io_t_lab.Net.Header.{dest}
use io_t_lab.Balancer.{Balancer, Server, Client, Entry, max_clnt}
use io_t_lab.Balancer.Select.{select_serv}
use io_t_lab.Balancer.Nat.{
  TcpType, LbAddr, Direction, clnt2serv, serv2clnt, tcp_length, translation, nat, check_ip_and_port,
  has_pseudo_port,
}
use io_t_lab.Balancer.Clients.{
  Packet, mark_closing, disconnect, forward_to_server, handle_serv2clnt, is_ack, is_fin, update,
}
use io_t_lab.Balancer.Tables.{
  active, active-lt, server_at-eq, port_at, port_at-eq, phase_at-eq, IsPaired, IsPaired-get,
}
use io_t_lab.Balancer.Choice.Least.{some_active}
use io_t_lab.Balancer.Choice.Selected.{
  IsCounted, select_serv-IsNext, select_serv-least_conn, select_serv-resource_based,
}
use io_t_lab.Balancer.Invariant.{IsSound}
use io_t_lab.Balancer.Invariant.Parts.{mark_closing-IsSound}
use io_t_lab.Balancer.Progress.{IsWhole, IsModest}

pub check_ip_and_port-reply :
    (lb : LbAddr) (cs : List Client) (buf : List ℕ)
    → check_ip_and_port lb cs buf ≡ some serv2clnt
    → Returns (find_index (has_pseudo_port (dest buf)) cs)
unfolding check_ip_and_port
check_ip_and_port-reply lb cs buf e =
    elim (Option-cases (find_index (has_pseudo_port (dest buf)) cs)) [
      | inl unknown ↦ absurd (ground arith)
      | inr found ↦ found
    ]

pub select_serv-Returns :
    (algo : ℕ) (s : Balancer)
    → algo < 3
    → IsCounted s
    → s.serv_cnt ≢ 0
    → IsModest s.servers
    → Returns (select_serv algo s)
select_serv-Returns algo s known ok busy modest =
    choose algo known (some_active s.servers (omega (arith, ok.counted)))
  where
    choose :
        (algo : ℕ)
        → algo < 3
        → ((j : ℕ) × (active s.servers j ≡ true))
        → Returns (select_serv algo s)
    choose zero h (j, up) = let (k, i, e, n) = select_serv-IsNext s ok busy in (_, e)
    choose (suc zero) h (j, up) =
        let (k, e, n) = select_serv-least_conn s ok busy j up (modest.uncrowded j up) in (_, e)
    choose (suc (suc zero)) h (j, up) =
        let (k, e, n) = select_serv-resource_based s ok busy j up (modest.unloaded j up) in (_, e)
    choose (suc (suc (suc n))) h j = absurd (omega arith)

pub nat-Returns :
    (lb : LbAddr) (dir : Direction) (source_id dest_id : ℕ) (s : Balancer) (buf : List ℕ)
    → Returns (tcp_length buf)
    → Returns (translation lb dir source_id dest_id s)
    → Returns (nat lb dir source_id dest_id s buf)
unfolding nat
nat-Returns lb dir source_id dest_id s buf sized known =
    Returns->>= (tcp_length buf) _ sized
      λ n _. Returns->>= (translation lb dir source_id dest_id s) _ known λ r _. (_, refl)

pub get-Returns : (vs : List Server) (i : ℕ) → active vs i ≡ true → Returns (get_elem? vs i)
get-Returns vs i up = get_elem?-of_lt vs i (active-lt vs i up)

pub update-Returns {ℓ} :
    {A : Type ℓ} (xs : List A) (i : ℕ) (f : A → A)
    → Returns (get_elem? xs i)
    → Returns (update xs i f)
update-Returns xs i f here = Returns->>= (get_elem? xs i) _ here λ x _. (_, refl)

pub disconnect-Returns :
    (client_id server_id : ℕ) (s : Balancer)
    → Returns (get_elem? s.servers server_id)
    → Returns (disconnect client_id server_id s)
unfolding disconnect
disconnect-Returns client_id server_id s here =
    Returns->>= (update s.servers server_id _) _ (update-Returns s.servers server_id _ here)
      λ vs _. (_, refl)

pub mark_closing-Returns :
    (type : TcpType) (id : ℕ) (s : Balancer)
    → Returns (get_elem? s.table id)
    → Returns (mark_closing type id s)
unfolding mark_closing
mark_closing-Returns type id s here =
    Returns-if (is_fin type) _ _
      (λ _.
        Returns->>= (update s.table id _) _ (update-Returns s.table id _ here) λ es _. (_, refl))
      (λ _. (s, refl))

pub mark_closing-clients :
    (type : TcpType) (id : ℕ) (s : Balancer) {t : Balancer}
    → mark_closing type id s ≡ some t
    → t.clients ≡ s.clients
unfolding mark_closing
mark_closing-clients type id s e = ground arith

pub translation-Returns :
    (lb : LbAddr) (client_id server_id : ℕ) (s : Balancer)
    → Returns (get_elem? s.clients client_id)
    → Returns (get_elem? s.servers server_id)
    → Returns (translation lb clnt2serv client_id server_id s)
unfolding translation
translation-Returns lb client_id server_id s client server =
    Returns->>= (get_elem? s.servers server_id) _ server
      λ v _. Returns->>= (get_elem? s.clients client_id) _ client λ c _. (_, refl)

pub back_translation-Returns :
    (lb : LbAddr) (server_id client_id : ℕ) (s : Balancer)
    → Returns (get_elem? s.clients client_id)
    → Returns (translation lb serv2clnt server_id client_id s)
unfolding translation
back_translation-Returns lb server_id client_id s client =
    Returns->>= (get_elem? s.clients client_id) _ client λ c _. (_, refl)

-- A client in use is forwarded.
pub forward_to_server-Returns :
    (lb : LbAddr) (type : TcpType) (p : Packet) (id : ℕ) (s : Balancer)
    → IsSound s
    → Returns (tcp_length p.buf)
    → id < max_clnt
    → port_at s.clients id ≢ 0
    → Returns (forward_to_server lb type p id s)
unfolding forward_to_server
forward_to_server-Returns lb type p id s ok sized inside used =
    Returns->>= (get_elem? s.table id) _ (get_elem?-of_lt s.table id (omega (arith, ok.rows)))
      λ x row.
        let here =
          get-Returns s.servers x.server (rw (server_at-eq s.table id row) at (ok.bound id used)) in
        let client = get_elem?-of_lt s.clients id (omega (arith, ok.slots)) in
        Returns->>= (nat lb clnt2serv id x.server s p.buf) _
          (nat-Returns lb clnt2serv id x.server s p.buf sized
            (translation-Returns lb id x.server s client here))
          λ packet _. Returns->>= (get_elem? s.servers x.server) _ here λ v _.
            Returns-if (is_ack type && x.phase == 1) _ _
              (λ _.
                Returns->>= (disconnect id x.server s) _ (disconnect-Returns id x.server s here)
                  λ t _. (_, refl))
              (λ _. (_, refl))

-- A packet for a client in use is returned to it, and no client is disconnected.
pub handle_serv2clnt-Returns :
    (lb : LbAddr) (type : TcpType) (p : Packet) (s : Balancer)
    → IsSound s
    → IsWhole p.buf
    → Returns (find_index (has_pseudo_port (dest p.buf)) s.clients)
    → Returns (handle_serv2clnt lb type p s)
unfolding handle_serv2clnt
handle_serv2clnt-Returns lb type p s ok whole known =
    Returns->>= (find_index (has_pseudo_port (dest p.buf)) s.clients) _ known λ id found.
      let (c, at, hit) = find_index_sound (has_pseudo_port (dest p.buf)) s.clients id found in
      let inside : id < max_clnt = omega (arith, get_elem?-lt s.clients id at, ok.slots) in
      let used : port_at s.clients id ≢ 0 = λ free. whole.destined (
        replies_used c hit (IsPaired-get s.clients id at ok.paired)
          (sym (port_at-eq s.clients id at) ∙ free)) in
      Returns->>= (get_elem? s.table id) _ (get_elem?-of_lt s.table id (omega (arith, ok.rows)))
        λ x row.
          Returns->>= (mark_closing type id s) _ (mark_closing-Returns type id s (x, row))
            λ t marked.
              let ok' = mark_closing-IsSound type id s marked ok in
              Returns->>= (nat lb serv2clnt x.server id t p.buf) _
                (nat-Returns lb serv2clnt x.server id t p.buf whole.sized (
                  back_translation-Returns lb x.server id t
                    (get_elem?-of_lt t.clients id (omega (arith, ok'.slots)))))
                λ packet _.
                  Returns->>= (get_elem? t.table id) _
                    (get_elem?-of_lt t.table id (omega (arith, ok'.rows)))
                    λ y row'.
                      Returns-if (is_ack type && y.phase == minus_one) _ _
                        (λ dead. absurd (
                          still_open t y id row' ok'
                            (rw (← mark_closing-clients type id s marked) at used) dead))
                        (λ _. (_, refl))
  where
    replies_used :
        (c : Client)
        → has_pseudo_port (dest p.buf) c ≡ true
        → IsPaired c
        → c.port ≡ 0
        → dest p.buf ≡ 0
    replies_used c hit paired free = ground (arith, paired free)

    still_open :
        (t : Balancer) (y : Entry) (id : ℕ)
        → get_elem? t.table id ≡ some y
        → IsSound t
        → port_at t.clients id ≢ 0
        → (is_ack type && y.phase == minus_one) ≡ true
        → ⊥
    still_open t y id row ok used dead =
        ground (arith, ok.marked id used, phase_at-eq t.table id row)
