-- ===== src/Balancer/Loop.antt =====
-- One round of the event loop of `main` in L4LB/LoadBalancer.c: the events that `epoll_wait`
-- returned, in order.
use io_t_lab.Common.{ℕ, List, [], ◌∷◌, ◌++◌, Option, some, ◌>>=◌}
use io_t_lab.Balancer.{Balancer}
use io_t_lab.Balancer.Nat.{LbAddr}
use io_t_lab.Balancer.Clients.{Packet, Sent, Flow, next, leave, Effect, handle_packet}
use io_t_lab.Balancer.Ready.{Accepted, Ready, handle_accept, handle_ready}

pub data Event : Type 0 where
  connects : Accepted → Event
  arrives : Packet → Event
  reports : Ready → Event

-- After an event the loop goes on with the rest, or `break` leaves it.
unfoldable pub resume :
    Flow → Effect → Option (Balancer × List Sent) → Option (Balancer × List Sent)
resume leave done rest = some (done.state, done.sent)
resume next done rest = rest >>= λ r. some (r.0, done.sent ++ r.1)

module _ (first_rand : ℕ → ℕ) (algo : ℕ) (lb : LbAddr) where
  unfoldable pub handle : Event → Balancer → Option Effect
  handle (connects a) s = some (record { state = handle_accept a s; sent = []; flow = next })
  handle (arrives p) s = handle_packet first_rand algo lb p s
  handle (reports r) s =
      handle_ready r s >>= λ s'. some (record { state = s'; sent = []; flow = next })

  -- The `for` loop over the ready events, which `leave` ends early.
  unfoldable pub run_events : List Event → Balancer → Option (Balancer × List Sent)
  unfolding resume
  run_events [] s = some (s, [])
  run_events (e ∷ es) s = do done ← handle e s; resume done.flow done (run_events es done.state)

  -- The `while (1)`: what each `epoll_wait` returned, up to the one that failed. An empty round is
  -- the `continue` on no event.
  unfoldable pub run_rounds : List (List Event) → Balancer → Option (Balancer × List Sent)
  run_rounds [] s = some (s, [])
  run_rounds (es ∷ rounds) s = do
    done ← run_events es s
    later ← run_rounds rounds done.0
    some (later.0, done.1 ++ later.1)
