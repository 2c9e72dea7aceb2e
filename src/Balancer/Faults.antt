-- ===== src/Balancer/Faults.antt =====
-- Where L4LB/LoadBalancer.c does not do what it means to.
use io_t_lab.Common.{
  ℕ, suc, ◌+◌, ◌-◌, ◌*◌, ◌%◌, ◌^◌, ◌<◌, ◌≤◌, ◌≡◌, ◌≢◌, refl, List, [], ◌∷◌, Option, some, none,
  false, arith, ◌==◌, ◌&&◌, if◌then◌else◌, ◌>>=◌, length, inl, inr, Bool-cases, get_elem?, decr,
  minus_one, find_index, Ensures, Ensures->>=, Ensures-if,
}
use io_t_lab.Net.Memory.{IsBytes, load8-lt}
use io_t_lab.Net.Header.{dest}
use io_t_lab.Balancer.{Balancer, Client, Entry}
use io_t_lab.Balancer.Nat.{
  LbAddr, TcpType, serv2clnt, nat, check_ip_and_port, check_type, has_pseudo_port,
}
use io_t_lab.Balancer.Clients.{
  Packet, Sent, Effect, leave, add_new_clnt, mark_closing, disconnect, handle_serv2clnt, dispatch,
  handle_packet, is_ack, update,
}
use io_t_lab.Balancer.Ready.{clear_clients}
use io_t_lab.Balancer.Loop.{Event, arrives, handle, resume, run_events}

-- How many rows of the forwarding table name a server.
abbrev pub rows_of : ℕ → List Entry → ℕ
rows_of id [] = 0
rows_of id (e ∷ es) = if e.server == id then suc (rows_of id es) else rows_of id es

-- Closing a server lowers the client count once for every row that names it, also for rows whose
-- client has already been disconnected and counted off.
pub clear_clients-clnt_cnt :
    (id : ℕ) (cs : List Client) (es : List Entry) (cnt : ℕ)
    → length cs ≡ length es
    → cnt < 2 ^ 32
    → (clear_clients id cs es cnt).clnt_cnt ≡ (cnt + rows_of id es * (2 ^ 32 - 1)) % 2 ^ 32
unfolding clear_clients
clear_clients-clnt_cnt id [] [] cnt len small = omega arith
clear_clients-clnt_cnt id [] (e ∷ es) cnt len small = absurd (omega arith)
clear_clients-clnt_cnt id (c ∷ cs) [] cnt len small = absurd (omega arith)
clear_clients-clnt_cnt id (c ∷ cs) (e ∷ es) cnt len small = elim (Bool-cases (e.server == id)) [
  | inl hit ↦
      rw hit (omega (arith, clear_clients-clnt_cnt id cs es (decr cnt) (omega arith) (omega arith)))
  | inr miss ↦ rw miss (clear_clients-clnt_cnt id cs es cnt (omega arith) small)
]

-- The end of a connection leaves its row in the table.
pub disconnect-table :
    (client_id server_id : ℕ) (s : Balancer)
    → Ensures (λ (t : Balancer). t.table ≡ s.table) (disconnect client_id server_id s)
unfolding disconnect
disconnect-table client_id server_id s = Ensures->>= _ (update s.servers server_id _) _ λ vs _. refl

-- The handler of replies always leaves the loop over the ready events.
handle_serv2clnt-leave :
    (lb : LbAddr) (type : TcpType) (p : Packet) (s : Balancer)
    → Ensures (λ (d : Effect). d.flow ≡ leave) (handle_serv2clnt lb type p s)
unfolding handle_serv2clnt
handle_serv2clnt-leave lb type p s =
    Ensures->>= _ (find_index (has_pseudo_port (dest p.buf)) s.clients) _ λ id _.
      Ensures->>= _ (get_elem? s.table id) _ λ x _. Ensures->>= _ (mark_closing type id s) _ λ t _.
        Ensures->>= _ (nat lb serv2clnt x.server id t p.buf) _ λ packet _.
          Ensures->>= _ (get_elem? t.table id) _ λ y _.
            Ensures-if _ (is_ack type && y.phase == minus_one) _ _
              (λ _. Ensures->>= _ (disconnect id x.server t) _ λ u _. refl) (λ _. refl)

resume-leave :
    (d : Effect) (rest other : Option (Balancer × List Sent))
    → d.flow ≡ leave
    → resume d.flow d rest ≡ resume d.flow d other
unfolding resume
resume-leave d rest other e = rw e refl

module _ (first_rand : ℕ → ℕ) (algo : ℕ) (lb : LbAddr) where
  -- A reply ends the round: with a server connected, every event that `epoll_wait` returned
  -- behind it is dropped.
  pub run_events-dropped :
      (p : Packet) (es : List Event) (s : Balancer)
      → check_ip_and_port lb s.clients p.buf ≡ some serv2clnt
      → s.serv_cnt ≢ 0
      → run_events first_rand algo lb (arrives p ∷ es) s
        ≡ run_events first_rand algo lb (arrives p ∷ []) s
  unfolding run_events handle
  run_events-dropped p es s reply busy = rw replied (
      go (handle_serv2clnt lb (check_type p.buf) p s)
        (handle_serv2clnt-leave lb (check_type p.buf) p s))
    where
      replied : handle_packet first_rand algo lb p s ≡ handle_serv2clnt lb (check_type p.buf) p s
      replied = unfold handle_packet dispatch in rw (reply, handle_packet) (ground arith)

      go :
          (m : Option Effect)
          → Ensures (λ (d : Effect). d.flow ≡ leave) m
          → (m >>= λ done. resume done.flow done (run_events first_rand algo lb es done.state))
            ≡ (m >>= λ done. resume done.flow done (some (done.state, [])))
      go none h = refl
      go (some d) h = resume-leave d _ _ h

module _ (first_rand : ℕ → ℕ) where
  -- A pseudo port past 65535 is never the destination port of a reply.
  pub add_new_clnt-unreachable :
      (now : ℕ) (request reply : List ℕ)
      → 16384 ≤ first_rand now % 16386
      → IsBytes reply
      → has_pseudo_port (dest reply) (add_new_clnt first_rand now request) ≡ false
  unfolding add_new_clnt
  add_new_clnt-unreachable now request reply high bytes =
      ground (arith, load8-lt reply 22 bytes, load8-lt reply 23 bytes)
