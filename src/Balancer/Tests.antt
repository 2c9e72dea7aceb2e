-- ===== src/Balancer/Tests.antt =====
-- The balancer of L4LB/LoadBalancer.c on concrete events, and its theorems at concrete inputs.
mod Backends
use io_t_lab.Common.{
  ℕ, zero, suc, ◌+◌, ◌*◌, ◌^◌, ◌≡◌, ◌≢◌, ◌<◌, ◌↔◌, refl, List, [], ◌∷◌, some, true, arith, Returns,
  Ensures, replicate, minus_one, take, swap16,
}
use mathlib.Core.Option
use io_t_lab.Net.Memory.{store16}
use io_t_lab.Net.Header.{ip_header_size, saddr, daddr, source, dest}
use io_t_lab.Net.Checksum.{checksum}
use io_t_lab.Net.Checksum.Sum.{folded}
use io_t_lab.Net.Checksum.Verify.{Accepts}
use io_t_lab.Balancer.{Balancer, Server, Client, initial, no_server, no_client, no_entry}
use io_t_lab.Balancer.Select.{select_serv}
use io_t_lab.Balancer.Nat.{
  LbAddr, clnt2serv, serv2clnt, Rewrite, rewrite, segment, nat, tcp_length, translation,
  check_ip_and_port, check_type,
}
use io_t_lab.Balancer.Clients.{Packet, handle_packet, Sent}
use io_t_lab.Balancer.Ready.{Accepted, handle_accept, clear_clients}
use io_t_lab.Balancer.Loop.{Event, connects, arrives, run_rounds, run_events, handle}
use io_t_lab.Balancer.Servers.{add_server_info}
use io_t_lab.Balancer.Tables.{active}
use io_t_lab.Balancer.Choice.Selected.{
  select_serv-IsNext, select_serv-least_conn, select_serv-resource_based,
}
use io_t_lab.Balancer.Choice.Cyclic.{IsNext}
use io_t_lab.Balancer.Choice.Least.{IsCheapest}
use io_t_lab.Balancer.Invariant.{IsSound}
use io_t_lab.Balancer.Invariant.Parts.{handle_accept-IsSound}
use io_t_lab.Balancer.Invariant.Events.{run_rounds-initial, initial-IsSound}
use io_t_lab.Balancer.Progress.{IsWhole, IsModest, HasRoom}
use io_t_lab.Balancer.Progress.Packets.{handle_packet-Returns}
use io_t_lab.Net.Checksum.Received.{tcp_received}
use io_t_lab.Balancer.Translate.Sent.{IsAddressed, nat-addresses, nat-Accepts_iff}
use io_t_lab.Balancer.Faults.{run_events-dropped, clear_clients-clnt_cnt}

-- 10.0.0.1, port 8080.
abbrev lb : LbAddr
lb = record { addr = 10 + 2 ^ 24; port = swap16 8080 }

-- A SYN from 10.0.0.9, port 12345.
abbrev syn_bytes : List ℕ
syn_bytes =
    0x45 ∷ 0 ∷ 0 ∷ 40 ∷ 0 ∷ 0 ∷ 0 ∷ 0 ∷ 64 ∷ 6 ∷ 0 ∷ 0 ∷ 10 ∷ 0 ∷ 0 ∷ 9 ∷ 10 ∷ 0 ∷ 0 ∷ 1 ∷ 0x30
    ∷ 0x39 ∷ 0x1f ∷ 0x90 ∷ 0 ∷ 0 ∷ 0 ∷ 1 ∷ 0 ∷ 0 ∷ 0 ∷ 0 ∷ 0x50 ∷ 2 ∷ 0x40 ∷ 0 ∷ 0 ∷ 0 ∷ 0 ∷ 0 ∷ []

abbrev syn_packet : Packet
syn_packet = record { buf = syn_bytes; received = 40; now = 7 }

-- A server at 10.0.0.2 that listens on port 9000.
abbrev accepted : Accepted
accepted = record { sock = 5; ip = 10 + 2 * 2 ^ 24; server_port = 9000 }

abbrev served : Balancer
served = handle_accept accepted initial

-- A generator of the tests: the first number after a seed is the seed.
abbrev seeded : ℕ → ℕ
seeded seed = seed

served_busy : served.serv_cnt ≢ 0
unfolding handle_accept add_server_info initial
served_busy = omega arith

abbrev rounds : List (List Event)
rounds = (connects accepted ∷ []) ∷ (arrives syn_packet ∷ []) ∷ []

run_rounds-initial_example :
    Ensures (λ (r : Balancer × List Sent). IsSound r.0) (run_rounds seeded 0 lb rounds initial)
run_rounds-initial_example = run_rounds-initial seeded 0 lb (omega arith) rounds (omega arith)

served-IsSound : IsSound served
served-IsSound = handle_accept-IsSound accepted initial (omega arith) initial-IsSound

abbrev listed : Server
listed = record no_server { sock = 5; ip = 10 + 2 * 2 ^ 24; port = swap16 9000; clnt_cnt = 0 }

served_servers : served.servers ≡ listed ∷ replicate 4 no_server
unfolding handle_accept add_server_info initial
served_servers = refl

served_active : active served.servers 0 ≡ true
unfolding handle_accept add_server_info initial
served_active = refl

nothing_active : (n m : ℕ) → active (replicate n no_server) m ≡ true → ⊥
nothing_active zero m h = ground arith
nothing_active (suc n) zero h = ground arith
nothing_active (suc n) (suc m) h = nothing_active n m h

listed-IsModest : IsModest (listed ∷ replicate 4 no_server)
listed-IsModest = record {
  uncrowded = elim [ zero ↦ λ h. omega arith | suc m ↦ λ h. absurd (nothing_active 4 m h) ];
  unloaded = elim [ zero ↦ λ h. omega arith | suc m ↦ λ h. absurd (nothing_active 4 m h) ];
}

served-IsModest : IsModest served.servers
served-IsModest = rw served_servers listed-IsModest

syn-IsWhole : IsWhole syn_bytes
unfolding tcp_length
syn-IsWhole = record { sized = (20, refl); sourced = omega arith; destined = omega arith }

served-HasRoom : HasRoom served
unfolding handle_accept add_server_info initial
served-HasRoom room = (0, refl)

select_serv-IsNext_example :
    (k i : ℕ) × (select_serv 0 served ≡ some (i, i))
    × IsNext served.servers served.recent_serv_id k i
select_serv-IsNext_example = select_serv-IsNext served served-IsSound.servers_ok served_busy

select_serv-least_conn_example :
    (k : ℕ) × (select_serv 1 served ≡ some (k, served.recent_serv_id))
    × IsCheapest (λ v. v.clnt_cnt) served.servers k
select_serv-least_conn_example =
    select_serv-least_conn served served-IsSound.servers_ok served_busy 0 served_active
      (served-IsModest.uncrowded 0 served_active)

select_serv-resource_based_example :
    (k : ℕ) × (select_serv 2 served ≡ some (k, served.recent_serv_id))
    × IsCheapest (λ v. v.resource_usage) served.servers k
select_serv-resource_based_example =
    select_serv-resource_based served served-IsSound.servers_ok served_busy 0 served_active
      (served-IsModest.unloaded 0 served_active)

handle_packet-Returns_example : Returns (handle_packet seeded 0 lb syn_packet served)
handle_packet-Returns_example =
    handle_packet-Returns seeded 0 (omega arith) lb syn_packet served served-HasRoom served-IsModest
      syn-IsWhole served-IsSound

-- The first free client slot, bound to the server.
abbrev joined : Client
joined = record { ip = 10 + 9 * 2 ^ 24; port = swap16 12345; pseudo_port = 49159 }

abbrev bound : Balancer
bound = record initial {
  servers = record listed { clnt_cnt = 1 } ∷ replicate 4 no_server;
  serv_cnt = 1;
  clients = joined ∷ replicate 999 no_client;
  clnt_cnt = 1;
  table = record { server = 0; phase = 2 } ∷ replicate 999 no_entry;
}

abbrev to_server : Rewrite
to_server = record { to_addr = 10 + 2 * 2 ^ 24; to_port = swap16 9000; from_port = 49159 }

syn_length : tcp_length syn_bytes ≡ some 20
unfolding tcp_length
syn_length = refl

syn_translation : translation lb clnt2serv 0 0 bound ≡ some to_server
unfolding translation
syn_translation = refl

nat-addresses_example :
    (out : List ℕ) × (nat lb clnt2serv 0 0 bound syn_bytes ≡ some out)
    × (saddr out ≡ lb.addr)
    × IsAddressed lb 0 0 bound clnt2serv (daddr out) (dest out) (source out)
nat-addresses_example =
    nat-addresses lb clnt2serv 0 0 bound syn_bytes 20 to_server syn_length syn_translation
      (omega arith) (omega arith) (omega arith) (omega arith) (omega arith)

nat-Accepts_iff_example :
    (out : List ℕ) × (nat lb clnt2serv 0 0 bound syn_bytes ≡ some out)
    × (Accepts (tcp_received out)
        ↔ (folded (segment lb 20 (rewrite lb to_server syn_bytes)) < 2 ^ 16))
    × (Accepts (take ip_header_size out)
        ↔ (folded (take ip_header_size (rewrite lb to_server syn_bytes)) < 2 ^ 16))
nat-Accepts_iff_example =
    nat-Accepts_iff lb clnt2serv 0 0 bound syn_bytes 20 to_server syn_length syn_translation
      (omega arith) refl (omega arith) (omega arith) (omega arith)

-- The SYN of the round above makes these tables.
round_result :
    Option.map (λ (r : Balancer × List Sent). r.0) (run_rounds seeded 0 lb rounds initial)
    ≡ some bound
unfolding run_rounds run_events handle handle_accept handle_packet initial add_server_info checksum
    segment check_ip_and_port check_type select_serv nat
round_result = refl

-- A reply to the client's pseudo port.
abbrev reply_bytes : List ℕ
reply_bytes = store16 (store16 syn_bytes 22 49159) 20 (swap16 9000)

abbrev reply_packet : Packet
reply_packet = record { buf = reply_bytes; received = 40; now = 8 }

reply_direction : check_ip_and_port lb bound.clients reply_bytes ≡ some serv2clnt
unfolding check_ip_and_port
reply_direction = refl

run_events-dropped_example :
    run_events seeded 0 lb (arrives reply_packet ∷ arrives syn_packet ∷ []) bound
    ≡ run_events seeded 0 lb (arrives reply_packet ∷ []) bound
run_events-dropped_example =
    run_events-dropped seeded 0 lb reply_packet (arrives syn_packet ∷ []) bound reply_direction
      (omega arith)

clear_clients-clnt_cnt_example :
    (clear_clients 0 (no_client ∷ []) (record { server = 0; phase = 1 } ∷ []) 0).clnt_cnt
    ≡ minus_one
clear_clients-clnt_cnt_example =
    clear_clients-clnt_cnt 0 (no_client ∷ []) (record { server = 0; phase = 1 } ∷ []) 0 refl
      (omega arith)
