-- ===== src/Balancer/Invariant/Events.antt =====
-- The invariant through whole rounds of the event loop, from the state that `main` starts with.
use io_t_lab.Common.{
  ℕ, ◌<◌, ◌≡◌, ◌≢◌, refl, List, [], ◌∷◌, Option, some, arith, length-replicate, Ensures,
  Ensures->>=, Ensures-elim, All, replicate, zero, suc, none,
}
use io_t_lab.Balancer.{Balancer, initial, max_clnt, no_client, no_entry}
use io_t_lab.Balancer.Nat.{LbAddr}
use io_t_lab.Balancer.Clients.{Sent, Flow, Effect, next, leave}
use io_t_lab.Balancer.Ready.{handle_ready}
use io_t_lab.Balancer.Loop.{
  Event, connects, arrives, reports, handle, resume, run_events, run_rounds,
}
use io_t_lab.Balancer.Tables.{port_at, IsPaired}
use io_t_lab.Balancer.Invariant.{IsSound}
use io_t_lab.Balancer.Invariant.Parts.{handle_accept-IsSound}
use io_t_lab.Balancer.Invariant.Reports.{handle_ready-IsSound}
use io_t_lab.Balancer.Invariant.Packets.{Keeps, handle_packet-IsSound}

-- Descriptors that `accept` and `epoll_wait` return are not 0, which is standard input.
abbrev pub IsReal : Event → Type 0
IsReal (connects a) = a.sock ≢ 0
IsReal (arrives p) = Unit
IsReal (reports r) = r.fd ≢ 0

resume-IsSound :
    (f : Flow) (d : Effect) (rest : Option (Balancer × List Sent))
    → IsSound d.state
    → Ensures (λ (r : Balancer × List Sent). IsSound r.0) rest
    → Ensures (λ (r : Balancer × List Sent). IsSound r.0) (resume f d rest)
unfolding resume
resume-IsSound leave d rest now later = now
resume-IsSound next d none now later = tt
resume-IsSound next d (some r) now later = later

module _ (first_rand : ℕ → ℕ) (algo : ℕ) (lb : LbAddr) (known : algo < 3) where
  pub handle-IsSound :
      (e : Event) (s : Balancer) → IsReal e → IsSound s → Keeps (handle first_rand algo lb e s)
  unfolding handle
  handle-IsSound (connects a) s real ok = handle_accept-IsSound a s real ok
  handle-IsSound (arrives p) s real ok = handle_packet-IsSound first_rand algo known lb p s ok
  handle-IsSound (reports r) s real ok =
      Ensures->>= _ (handle_ready r s) _ λ t h. handle_ready-IsSound r s real h ok

  -- Whatever the round of events returns, its tables are sound.
  pub run_events-IsSound :
      (es : List Event) (s : Balancer)
      → All IsReal es
      → IsSound s
      → Ensures (λ (r : Balancer × List Sent). IsSound r.0) (run_events first_rand algo lb es s)
  unfolding run_events
  run_events-IsSound [] s real ok = ok
  run_events-IsSound (e ∷ es) s real ok = Ensures->>= _ (handle first_rand algo lb e s) _ λ d h.
      let ok' = Ensures-elim _ (handle first_rand algo lb e s) d h (handle-IsSound e s real.0 ok) in
      resume-IsSound d.flow d (run_events first_rand algo lb es d.state) ok'
        (run_events-IsSound es d.state real.1 ok')

port_at-free : (n j : ℕ) → port_at (replicate n no_client) j ≡ 0
port_at-free zero j = refl
port_at-free (suc n) zero = refl
port_at-free (suc n) (suc j) = port_at-free n j

no_client-IsPaired : (n : ℕ) → All IsPaired (replicate n no_client)
no_client-IsPaired zero = tt
no_client-IsPaired (suc n) = ((λ _. refl), no_client-IsPaired n)

pub initial-IsSound : IsSound initial
unfolding initial
initial-IsSound = record {
  servers_ok = record { slots = refl; counted = refl; recent = omega arith };
  slots = length-replicate max_clnt no_client;
  rows = length-replicate max_clnt no_entry;
  bound = λ j used. absurd (used (port_at-free max_clnt j));
  marked = λ j used. absurd (used (port_at-free max_clnt j));
  paired = no_client-IsPaired max_clnt;
}

module _ (first_rand : ℕ → ℕ) (algo : ℕ) (lb : LbAddr) (known : algo < 3) where
  run_rounds-IsSound :
      (rounds : List (List Event)) (s : Balancer)
      → All (All IsReal) rounds
      → IsSound s
      → Ensures (λ (r : Balancer × List Sent). IsSound r.0) (run_rounds first_rand algo lb rounds s)
  unfolding run_rounds
  run_rounds-IsSound [] s real ok = ok
  run_rounds-IsSound (es ∷ rounds) s real ok =
      Ensures->>= _ (run_events first_rand algo lb es s) _ λ d h.
        Ensures->>= _ (run_rounds first_rand algo lb rounds d.0) _ λ later h'.
          Ensures-elim _ (run_rounds first_rand algo lb rounds d.0) later h' (
            run_rounds-IsSound rounds d.0 real.1 (
              Ensures-elim _ (run_events first_rand algo lb es s) d h
                (run_events-IsSound first_rand algo lb known es s real.0 ok)))

  -- Whatever sequence of events the loop of `main` handles from its initial state, the tables stay
  -- sound: every client in use has a row that names a connected server and is not marked unused,
  -- `serv_cnt` counts the connected servers, and free client slots have no pseudo port. The
  -- algorithm is one that `main` accepts, and descriptors are not 0.
  pub run_rounds-initial :
      (rounds : List (List Event))
      → All (All IsReal) rounds
      → Ensures
          (λ (r : Balancer × List Sent). IsSound r.0)
          (run_rounds first_rand algo lb rounds initial)
  run_rounds-initial rounds real = run_rounds-IsSound rounds initial real initial-IsSound
