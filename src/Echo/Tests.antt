-- ===== src/Echo/Tests.antt =====
-- The echo servers at concrete events.
use io_t_lab.Common.{ℕ, ◌≡◌, List, [], ◌∷◌, ◌++◌, some}
use io_t_lab.Echo.{
  got, eof, Event, accepted, readable, Epoll, run_lt, chunk, ended, EdgeEvent, connected, drained,
  run_et,
}
use io_t_lab.Echo.Streams.{written_to, read_from, levels, run_lt-written, run_et-run_lt}
use io_t_lab.Echo.Backend.{Backend, Round, run_backend}
use io_t_lab.Echo.Reports.{IsSpaced, AllFlow, run_backend-IsSpaced}

abbrev quiet : Epoll
quiet = record { watched = []; written = [] }

abbrev two_clients : List Event
two_clients =
    accepted 7
    ∷ readable 7 (got (1 ∷ 2 ∷ []))
    ∷ readable 8 (got (9 ∷ []))
    ∷ readable 7 (got (3 ∷ []))
    ∷ readable 7 eof
    ∷ []

run_lt-written_example :
    (t : Epoll) × (run_lt two_clients quiet ≡ some t)
    × ((fd : ℕ) → written_to fd t.written ≡ [] ++ read_from fd two_clients)
run_lt-written_example = run_lt-written two_clients quiet tt

abbrev edges : List EdgeEvent
edges = connected 7 ∷ drained 7 (chunk (1 ∷ 2 ∷ 3 ∷ 4 ∷ []) (chunk (5 ∷ []) ended)) ∷ []

run_et-run_lt_example : run_lt (levels edges) quiet ≡ some (run_et edges quiet)
run_et-run_lt_example = run_et-run_lt edges quiet

abbrev at_time : ℕ → Round
at_time now = record {
  cur_time = now;
  cpu_usage = 30;
  ram_usage = 512000000;
  events = accepted 9 ∷ [];
}

run_backend-IsSpaced_example :
    AllFlow
      (λ s. IsSpaced s.reports)
      (run_backend 4 2
        (at_time 1000 ∷ at_time 1004 ∷ at_time 1011 ∷ [])
        (record { prev_time = 0; reports = []; epoll = quiet }))
run_backend-IsSpaced_example =
    run_backend-IsSpaced 4 2 (at_time 1000 ∷ at_time 1004 ∷ at_time 1011 ∷ []) quiet

abbrev fresh : Backend
fresh = record { prev_time = 995; reports = []; epoll = quiet }
