-- ===== src/Balancer/Backends.antt =====
-- The balancer of L4LB/LoadBalancer.c with a server of L4LB/echo_EPLTserv.c: the server connects, and
-- sends its reports.
use io_t_lab.Common.{
  ℕ, zero, suc, ◌≡◌, ◌≢◌, refl, ◌∙◌, List, [], ◌∷◌, ◌++◌, map, concat, some, none, arith, ◌==◌,
  if◌then◌else◌, u16, swap16, incr, get_elem?, set, get_elem?-set_self, get_elem?-lt, set-get,
  set-set, find_index-later, find_index-set_same, find_index-set_new, find_index, inl, inr,
  Bool-cases,
}
use io_t_lab.Echo.{Epoll}
use io_t_lab.Echo.Backend.{
  Report, Backend, Round, Flow, running, Greeting, denied, greeted, no_greeting, join_balancer,
  run_server,
}
use io_t_lab.Balancer.{Balancer, Server, max_serv}
use io_t_lab.Balancer.Servers.{fill_slot, add_server_info}
use io_t_lab.Balancer.Nat.{LbAddr}
use io_t_lab.Balancer.Ready.{
  Accepted, Progress, failed, usage, again, has_sock, handle_accept, report, read_loop, finish,
  handle_ready,
}
use io_t_lab.Balancer.Loop.{Event, connects, reports, resume, handle, run_events}

-- Lines 440-446: what the balancer sends to a server that connects, or closes it.
abbrev pub greet : ℕ → Balancer → Greeting
greet algo s = if s.serv_cnt == max_serv then denied else greeted algo

-- The reports of a server as the balancer reads them, oldest first.
abbrev pub as_sent : List Report → List Progress
as_sent [] = []
as_sent (r ∷ rs) = as_sent rs ++ usage r.resource_usage ∷ []

-- The `resource_usage` after these.
abbrev pub latest_usage : List Report → ℕ → ℕ
latest_usage [] load = load
latest_usage (r ∷ rs) load = r.resource_usage

-- What a slot holds after some of the reads.
abbrev after_reads : List Progress → ℕ → ℕ
after_reads [] load = load
after_reads (failed ∷ ps) load = after_reads ps load
after_reads (usage u ∷ ps) load = after_reads ps u

after_reads-append :
    (ps qs : List Progress) (load : ℕ)
    → after_reads (ps ++ qs) load ≡ after_reads qs (after_reads ps load)
after_reads-append [] qs load = refl
after_reads-append (failed ∷ ps) qs load = after_reads-append ps qs load
after_reads-append (usage u ∷ ps) qs load = after_reads-append ps qs u

after_reads-as_sent :
    (rs : List Report) (load : ℕ) → after_reads (as_sent rs) load ≡ latest_usage rs load
after_reads-as_sent [] load = refl
after_reads-as_sent (r ∷ rs) load =
    after_reads-append (as_sent rs) (usage r.resource_usage ∷ []) load

-- The server that joins, in a slot that held `v`.
abbrev pub joined_server : ℕ → ℕ → ℕ → Server → Server
joined_server sock ip port v = record v { sock = sock; ip = ip; port = u16 port; clnt_cnt = 0 }

fill_slot-first :
    (sock ip port i : ℕ) (vs : List Server) {v : Server}
    → find_index (has_sock 0) vs ≡ some i
    → get_elem? vs i ≡ some v
    → fill_slot sock ip port vs ≡ set vs i (joined_server sock ip port v)
unfolding fill_slot
fill_slot-first sock ip port i [] first at = refl
fill_slot-first sock ip port zero (w ∷ vs) first at = ground arith
fill_slot-first sock ip port (suc i) (w ∷ vs) first at =
    let (busy, later) = find_index-later (has_sock 0) w vs i first in
    rw (busy, fill_slot-first sock ip port i vs later at)

-- The reports, in however many parts the balancer reads them.
abbrev pub ready_parts : ℕ → List (List Progress) → List Event
ready_parts sock parts =
    map (λ part. reports (record { fd = sock; progress = part; ending = again })) parts

-- The state with another usage in slot `i`, which holds `v`.
abbrev store : ℕ → Server → ℕ → Balancer → Balancer
store i v load s = record s { servers = set s.servers i (record v { resource_usage = load }) }

read_loop-store :
    (i : ℕ) (ps : List Progress) (s : Balancer) (v : Server)
    → get_elem? s.servers i ≡ some v
    → read_loop (some i) ps s ≡ some (store i v (after_reads ps v.resource_usage) s)
unfolding read_loop report
read_loop-store i [] s v at = rw (set-get s.servers i at) refl
read_loop-store i (failed ∷ ps) s v at = read_loop-store i ps s v at
read_loop-store i (usage load ∷ ps) s v at =
    let w : Server = record v { resource_usage = load } in
    rw
      (
        at,
        read_loop-store i ps (store i v load s) w
            (get_elem?-set_self s.servers i w (get_elem?-lt s.servers i at)),
        set-set s.servers i w (record v { resource_usage = after_reads ps load }),
      )
      refl

handle_accept-first :
    (a : Accepted) (i : ℕ) (s : Balancer) {v : Server}
    → s.serv_cnt ≢ max_serv
    → find_index (has_sock 0) s.servers ≡ some i
    → get_elem? s.servers i ≡ some v
    → handle_accept a s ≡ record s {
      servers = set s.servers i (joined_server a.sock a.ip (swap16 a.server_port) v);
      serv_cnt = incr s.serv_cnt;
    }
unfolding handle_accept add_server_info
handle_accept-first a i s room first at = elim (Bool-cases (s.serv_cnt == max_serv)) [
  | inl full ↦ absurd (ground arith)
  | inr free ↦
      rw (free, fill_slot-first a.sock a.ip (swap16 a.server_port) i s.servers first at) refl
]

run_server-port :
    (lb_sock port unset sent_port : ℕ) (greeting : Greeting) (rounds : List Round) (epoll : Epoll)
    (f : Flow)
    → run_server lb_sock port unset greeting rounds epoll ≡ some (sent_port, f)
    → sent_port ≡ u16 port
unfolding run_server join_balancer
run_server-port lb_sock port unset sent_port denied rounds epoll f ran = ground arith
run_server-port lb_sock port unset sent_port no_greeting rounds epoll f ran = ground arith
run_server-port lb_sock port unset sent_port (greeted algo) rounds epoll f ran = ground arith

-- With MAX_SERV_CNT servers the balancer stays as it is, and the server ends without a message.
run_server-denied :
    (algo lb_sock port unset : ℕ) (a : Accepted) (rounds : List Round) (epoll : Epoll)
    (s : Balancer)
    → s.serv_cnt ≡ max_serv
    → (run_server lb_sock port unset (greet algo s) rounds epoll ≡ none) × (handle_accept a s ≡ s)
unfolding run_server join_balancer handle_accept
run_server-denied algo lb_sock port unset a rounds epoll s full = (rw full refl, rw full refl)

module _ (first_rand : ℕ → ℕ) (algo : ℕ) (lb : LbAddr) (sock i : ℕ) where
  run_events-parts :
      (parts : List (List Progress)) (s : Balancer) (v : Server)
      → get_elem? s.servers i ≡ some v
      → find_index (has_sock sock) s.servers ≡ some i
      → run_events first_rand algo lb (ready_parts sock parts) s
        ≡ some (store i v (after_reads (concat parts) v.resource_usage) s, [])
  unfolding run_events handle handle_ready finish resume
  run_events-parts [] s v at found = rw (set-get s.servers i at) refl
  run_events-parts (p ∷ parts) s v at found =
      let load = after_reads p v.resource_usage in
      let w : Server = record v { resource_usage = load } in
      rw
        (
          found,
          read_loop-store i p s v at,
          run_events-parts parts (store i v load s) w
              (get_elem?-set_self s.servers i w (get_elem?-lt s.servers i at))
              (find_index-set_same (has_sock sock) s.servers i w at refl ∙ found),
          set-set s.servers i w (record v { resource_usage = after_reads (concat parts) load }),
          after_reads-append p (concat parts) v.resource_usage,
        )
        refl

  -- If the balancer has fewer than MAX_SERV_CNT servers, its first free slot is `i`, no slot has
  -- the new socket, and a server that it greets has run up to `b`, then the balancer, after the
  -- connection and the server's reports in whatever parts they are read, has counted one server
  -- more and has in slot `i` the socket, the address, the server's port in network order, no client
  -- and the usage that the server reported last, or the one that the free slot had if it has
  -- reported none. Nothing else changes, and nothing is sent.
  pub run_events-joined :
      (s : Balancer) (v : Server) (ip lb_sock port unset sent_port : ℕ) (rounds : List Round)
      (epoll : Epoll) (b : Backend) (parts : List (List Progress))
      → s.serv_cnt ≢ max_serv
      → find_index (has_sock 0) s.servers ≡ some i
      → get_elem? s.servers i ≡ some v
      → find_index (has_sock sock) s.servers ≡ none
      → run_server lb_sock port unset (greet algo s) rounds epoll ≡ some (sent_port, running b)
      → concat parts ≡ as_sent b.reports
      → run_events first_rand algo lb
          (connects (record { sock = sock; ip = ip; server_port = sent_port })
            ∷ ready_parts sock parts)
          s
        ≡ some (
          record s {
            servers = set s.servers i (record {
              sock = sock;
              ip = ip;
              port = swap16 (u16 port);
              clnt_cnt = 0;
              sock_adr = v.sock_adr;
              resource_usage = latest_usage b.reports v.resource_usage;
            });
            serv_cnt = incr s.serv_cnt;
          },
          [],
        )
  unfolding run_events handle resume
  run_events-joined s v ip lb_sock port unset sent_port rounds epoll b parts room first at fresh ran
        all =
      let w = joined_server sock ip (swap16 sent_port) v in
      let a : Accepted = record { sock = sock; ip = ip; server_port = sent_port } in
      let lt = get_elem?-lt s.servers i at in
      let same_port : u16 (swap16 sent_port) ≡ swap16 (u16 port) = omega (
        arith,
        run_server-port lb_sock port unset sent_port (greet algo s) rounds epoll (running b) ran,
      ) in
      rw
        (
          handle_accept-first a i s room first at,
          run_events-parts parts
              (record s { servers = set s.servers i w; serv_cnt = incr s.serv_cnt }) w
              (get_elem?-set_self s.servers i w lt)
              (find_index-set_new (has_sock sock) s.servers i w fresh at (ground arith)),
          set-set s.servers i w _,
          all,
          after_reads-as_sent b.reports v.resource_usage,
        )
        (rw same_port refl)
