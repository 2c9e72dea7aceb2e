-- ===== src/Echo/Backend.antt =====
-- L4LB/echo_EPLTserv.c: the echo server behind the load balancer. `get_cpu_usage`, `get_ram_usage`
-- and the clock are what they return in each round.
use io_t_lab.Common.{
  ℕ, ◌+◌, ◌/◌, List, [], ◌∷◌, Option, none, some, ◌>>=◌, Bool, ◌&&◌, ◌==◌, leb, u16, u32,
  if◌then◌else◌,
}
use io_t_lab.Echo.{got, eof, failed, Event, accepted, readable, Epoll, watch, unwatch, echo}

-- RESOURCE_BASED
abbrev pub resource_algorithm : ℕ
resource_algorithm = 2

-- An `int` sent to the balancer, and the clock as the round has read it at line 161, to which
-- prev_time is set; `get_cpu_usage` sleeps for a second in between.
pub record Report : Type 0 where
  pub cur_time : ℕ
  pub resource_usage : ℕ

-- `reports` has the latest first.
pub record Backend : Type 0 where
  pub prev_time : ℕ
  pub reports : List Report
  pub epoll : Epoll

-- The clock, the percentage and the bytes in use, and what `epoll_wait` returns.
pub record Round : Type 0 where
  pub cur_time : ℕ
  pub cpu_usage : ℕ
  pub ram_usage : ℕ
  pub events : List Event

-- `undefined` is a `write` with the length -1. Each comes with the state that it is reached in.
pub data Flow : Type 0 where
  running exited undefined : Backend → Flow

-- `send_resource_info`, for a percentage that is cut to an `int`.
abbrev pub send_resource_info : Round → Backend → Backend
send_resource_info r s = record s {
  prev_time = r.cur_time;
  reports =
      record {
        cur_time = r.cur_time;
        resource_usage = u32 (u32 r.cpu_usage + u32 (r.ram_usage / 1000000));
      }
      ∷ s.reports;
}

-- Line 162.
abbrev pub is_due : ℕ → Round → Backend → Bool
is_due algorithm r s = algorithm == resource_algorithm && leb (s.prev_time + 10) r.cur_time

-- Lines 172-203.
unfoldable pub backend_events : ℕ → List Event → Backend → Flow
backend_events lb_sock [] s = running s
backend_events lb_sock (accepted fd ∷ es) s =
    backend_events lb_sock es (record s { epoll = watch fd s.epoll })
backend_events lb_sock (readable fd (got bytes) ∷ es) s =
    backend_events lb_sock es (record s { epoll = echo fd bytes s.epoll })
backend_events lb_sock (readable fd eof ∷ es) s =
    let rest = backend_events lb_sock es (record s { epoll = unwatch fd s.epoll }) in
    if fd == lb_sock then exited s else rest
backend_events lb_sock (readable fd failed ∷ es) s = undefined s

abbrev pub report_due : ℕ → Round → Backend → Backend
report_due algorithm r s = if is_due algorithm r s then send_resource_info r s else s

-- Lines 159-204.
unfoldable pub run_backend : ℕ → ℕ → List Round → Backend → Flow
unfolding backend_events
run_backend lb_sock algorithm [] s = running s
run_backend lb_sock algorithm (r ∷ rounds) s =
    elim (backend_events lb_sock r.events (report_due algorithm r s)) [
      | running t ↦ run_backend lb_sock algorithm rounds t
      | exited t ↦ exited t
      | undefined t ↦ undefined t
    ]

-- What `recv` makes of the balancer's first message.
pub data Greeting : Type 0 where
  denied no_greeting : Greeting
  greeted : ℕ → Greeting

-- A server that goes on to listen: `lb_algorithm`, and the port that it has sent in host order.
pub record Joined : Type 0 where
  pub lb_algorithm : ℕ
  pub port_for_client : ℕ

-- Lines 105-116, with `atoi(argv[3])` and what `lb_algorithm` holds before it is set; `none` is
-- `exit(0)`, without a message. An error of `recv` is not told from a success.
unfoldable pub join_balancer : ℕ → ℕ → Greeting → Option Joined
join_balancer port unset denied = none
join_balancer port unset no_greeting =
    some (record { lb_algorithm = unset; port_for_client = u16 port })
join_balancer port unset (greeted algorithm) =
    some (record { lb_algorithm = algorithm; port_for_client = u16 port })

-- The port that is sent, and the run of the loop behind it; `prev_time` is a global.
unfoldable pub run_server : ℕ → ℕ → ℕ → Greeting → List Round → Epoll → Option (ℕ × Flow)
unfolding join_balancer run_backend
run_server lb_sock port unset greeting rounds epoll = do
  joined ← join_balancer port unset greeting
  some (
    joined.port_for_client,
    run_backend lb_sock joined.lb_algorithm rounds
        (record { prev_time = 0; reports = []; epoll = epoll }),
  )
