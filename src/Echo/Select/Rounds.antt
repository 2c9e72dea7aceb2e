-- ===== src/Echo/Select/Rounds.antt =====
-- The select server does what a level-triggered server does with the same events, in ascending order
-- of descriptors.
use io_t_lab.Common.{
  ℕ, zero, suc, ◌+◌, ◌<◌, ◌≤◌, ◌≡◌, refl, arith, List, [], ◌∷◌, ◌++◌, Option, none, some, ◌>>=◌,
  true, false, Bool-cases, inl, inr, ◌⊎◌, ltb, lt→ltb, ltb→lt,
}
use io_t_lab.Echo.{Event, Epoll, run_lt}
use io_t_lab.Echo.Select.{
  fd_setsize, Round, Turn, timed_out, failed_select, selected, Reads, serve_fd, serve_fds,
  serve_round, run_select,
}
use io_t_lab.Echo.Select.Agree.{
  run_lt-append, Listed, Listed-le, IsWithin, Agrees, Agrees->>=, AcceptsOf, event, events,
  serve_fd-Agrees,
}

module _ (serv_sock : ℕ) where
  events-idle :
      (r : Round) (i n : ℕ) → ((j : ℕ) → i ≤ j → r.ready j ≡ false) → events serv_sock r i n ≡ []
  events-idle r i zero h = refl
  events-idle r i (suc n) h =
      rw (h i (omega arith)) (events-idle r (suc i) n (λ j le. h j (omega arith)))

  serve_fds-past :
      (n : ℕ) (r : Round) (i : ℕ) (s : Reads)
      → s.fd_max < i
      → serve_fds serv_sock (suc n) r i s ≡ some s
  unfolding serve_fds
  serve_fds-past n r i s h = rw (lt→ltb s.fd_max i h) refl

  serve_fds-within :
      (n : ℕ) (r : Round) (i : ℕ) (s : Reads)
      → ltb s.fd_max i ≡ false
      → serve_fds serv_sock (suc n) r i s
        ≡ (serve_fd serv_sock r i s >>= serve_fds serv_sock n r (suc i))
  unfolding serve_fds
  serve_fds-within n r i s h = rw h refl

  not_ready : (r : Round) (k j : ℕ) → (r.ready j ≡ true → j ≤ k) → k < j → r.ready j ≡ false
  not_ready r k j seen h = elim (Bool-cases (r.ready j)) [
    | inl is_ready ↦ absurd (omega (arith, seen is_ready))
    | inr idle ↦ idle
  ]

  serve_fds-Agrees :
      (n k : ℕ) (r : Round) (i : ℕ) (s : Reads)
      → i + n ≡ fd_setsize
      → AcceptsOf serv_sock r
      → ((j : ℕ) → r.ready j ≡ true → j ≤ k)
      → k ≤ s.fd_max
      → IsWithin serv_sock s
      → Agrees serv_sock k
          (serve_fds serv_sock (suc n) r i s)
          (run_lt (events serv_sock r i n) s.served)
  unfolding run_lt
  serve_fds-Agrees zero k r i s len q seen h w =
      rw (serve_fds-past 0 r i s (omega (arith, w.2))) (refl, h, w)
  serve_fds-Agrees (suc n) k r i s len q seen h w = elim (Bool-cases (ltb s.fd_max i)) [
    | inl past ↦
        let lt = ltb→lt s.fd_max i past in
        rw (serve_fds-past (suc n) r i s lt) (
          rw (events-idle r i (suc n) (λ j le. not_ready r k j (seen j) (omega arith)))
            (refl, h, w))
    | inr within ↦ rw (serve_fds-within (suc n) r i s within) (
        rw (run_lt-append (event serv_sock r i) (events serv_sock r (suc i) n) s.served) (
          Agrees->>= serv_sock k (serve_fd serv_sock r i s) (run_lt (event serv_sock r i) s.served)
            (serve_fds serv_sock (suc n) r (suc i)) (run_lt (events serv_sock r (suc i) n))
            (serve_fd-Agrees serv_sock k r i s q h w)
            (λ s' e h' w'. serve_fds-Agrees n k r (suc i) s' (omega arith) q seen h' w')))
  ]

  Agrees-weaken :
      (k : ℕ) (m : Option Reads) (m' : Option Epoll)
      → Agrees serv_sock k m m'
      → Agrees serv_sock 0 m m'
  Agrees-weaken k none none a = tt
  Agrees-weaken k (some s) (some t) a = (a.0, omega arith, a.2)
  Agrees-weaken k none (some t) a = a
  Agrees-weaken k (some s) none a = a

  pub round_events : Round → List Event
  round_events r = events serv_sock r 0 fd_setsize

  serve_round-Agrees :
      (r : Round) (s : Reads)
      → AcceptsOf serv_sock r
      → ((j : ℕ) → r.ready j ≡ true → j ≤ s.fd_max)
      → IsWithin serv_sock s
      → Agrees serv_sock 0 (serve_round serv_sock r s) (run_lt (round_events r) s.served)
  unfolding serve_round round_events
  serve_round-Agrees r s q seen w =
      Agrees-weaken s.fd_max _ _
        (serve_fds-Agrees fd_setsize s.fd_max r 0 s (omega arith) q seen (omega arith) w)

  -- `select` reports descriptors of the set that it is given, in every state that is reached.
  abbrev pub IsSelect : List Turn → Reads → Type 0
  IsSelect [] s = Unit
  IsSelect (timed_out ∷ ts) s = IsSelect ts s
  IsSelect (failed_select ∷ ts) s = Unit
  IsSelect (selected r ∷ ts) s =
      AcceptsOf serv_sock r
      × ((j : ℕ) → r.ready j ≡ true → (j ≡ serv_sock) ⊎ Listed j s.served.watched)
      × ((s' : Reads) → serve_round serv_sock r s ≡ some s' → IsSelect ts s')

  abbrev pub all_events : List Turn → List Event
  all_events [] = []
  all_events (timed_out ∷ ts) = all_events ts
  all_events (failed_select ∷ ts) = []
  all_events (selected r ∷ ts) = round_events r ++ all_events ts

  -- When the listening socket and the clients are within fd_max, which fits into a set, `select` reports
  -- members of the set only and `accept` returns a descriptor that fits, the server has the same
  -- result as the level-triggered server on the events of the ready descriptors in ascending order:
  -- it is undefined when that one is, and else has the same clients and has written the same, with
  -- every descriptor still within fd_max.
  pub run_select-run_lt :
      (ts : List Turn) (s : Reads)
      → IsWithin serv_sock s
      → IsSelect ts s
      → Agrees serv_sock 0 (run_select serv_sock ts s) (run_lt (all_events ts) s.served)
  unfolding run_select run_lt
  run_select-run_lt [] s w h = (refl, omega arith, w)
  run_select-run_lt (timed_out ∷ ts) s w h = run_select-run_lt ts s w h
  run_select-run_lt (failed_select ∷ ts) s w h = (refl, omega arith, w)
  run_select-run_lt (selected r ∷ ts) s w (q, seen, later) =
      rw (run_lt-append (round_events r) (all_events ts) s.served) (
        Agrees->>= serv_sock 0 (serve_round serv_sock r s) (run_lt (round_events r) s.served)
          (run_select serv_sock ts) (run_lt (all_events ts))
          (serve_round-Agrees r s q (λ j h. within j (seen j h)) w)
          (λ s' e h' w'. run_select-run_lt ts s' w' (later s' e)))
    where
      within : (j : ℕ) → (j ≡ serv_sock) ⊎ Listed j s.served.watched → j ≤ s.fd_max
      within j (inl e) = omega (arith, w.0)
      within j (inr h) = Listed-le s.fd_max j s.served.watched h w.1
