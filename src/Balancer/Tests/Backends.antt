-- ===== src/Balancer/Tests/Backends.antt =====
-- A server of L4LB/echo_EPLTserv.c that joins the balancer as it starts.
use io_t_lab.Common.{ℕ, ◌≡◌, refl, List, [], ◌∷◌, some, arith, swap16, set}
use io_t_lab.Echo.{Epoll, accepted}
use io_t_lab.Echo.Backend.{Backend, Round, running, run_server}
use io_t_lab.Balancer.{no_addr, no_server, initial}
use io_t_lab.Balancer.Nat.{LbAddr}
use io_t_lab.Balancer.Ready.{Progress, usage}
use io_t_lab.Balancer.Loop.{connects, run_events}
use io_t_lab.Balancer.Backends.{greet, ready_parts, run_events-joined}

abbrev lb : LbAddr
lb = record { addr = 100; port = swap16 80 }

abbrev idle : Epoll
idle = record { watched = []; written = [] }

abbrev at_time : ℕ → ℕ → Round
at_time now cpu = record {
  cur_time = now;
  cpu_usage = cpu;
  ram_usage = 512000000;
  events = accepted 9 ∷ [];
}

abbrev rounds : List Round
rounds = at_time 1000 30 ∷ at_time 1004 90 ∷ at_time 1011 60 ∷ []

abbrev reported : Backend
reported = record {
  prev_time = 1011;
  reports =
      record { cur_time = 1011; resource_usage = 572 }
      ∷ record { cur_time = 1000; resource_usage = 542 }
      ∷ [];
  epoll = record { watched = 9 ∷ 9 ∷ 9 ∷ []; written = [] };
}

run_server-reported :
    run_server 3 9000 77 (greet 2 initial) rounds idle ≡ some (9000, running reported)
unfolding run_server initial
run_server-reported = refl

abbrev parts : List (List Progress)
parts = (usage 542 ∷ []) ∷ [] ∷ (usage 572 ∷ []) ∷ []

run_events-joined_example :
    run_events
      (λ n. n)
      2
      lb
      (connects (record { sock = 4; ip = 7; server_port = 9000 }) ∷ ready_parts 4 parts)
      initial
    ≡ some (
      record initial {
        servers = set initial.servers 0 (record {
          sock = 4;
          ip = 7;
          port = swap16 9000;
          clnt_cnt = 0;
          sock_adr = no_addr;
          resource_usage = 572;
        });
        serv_cnt = 1;
      },
      [],
    )
unfolding initial
run_events-joined_example =
    run_events-joined (λ n. n) 2 lb 4 0 initial no_server 7 3 9000 77 9000 rounds idle reported
      parts (omega arith) refl refl refl run_server-reported refl
