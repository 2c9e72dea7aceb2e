-- ===== src/Echo/Reports.antt =====
-- The clock readings of the reports that L4LB/echo_EPLTserv.c sends to the balancer.
use io_t_lab.Common.{
  ℕ, ◌+◌, ◌≤◌, ◌<◌, ◌≡◌, u32, ◌/◌, refl, List, [], ◌∷◌, Bool-cases, inl, inr, arith, ◌==◌,
}
use io_t_lab.Echo.{got, eof, failed, Event, accepted, readable, Epoll, watch, unwatch, echo}
use io_t_lab.Echo.Backend.{
  resource_algorithm, Report, Backend, Round, Flow, running, exited, undefined, is_due,
  backend_events, report_due, run_backend,
}

-- The clock readings of successive reports are at least 10 seconds apart.
abbrev pub IsSpaced : List Report → Type 0
IsSpaced [] = Unit
IsSpaced (r ∷ []) = Unit
IsSpaced (r ∷ q ∷ rest) = (q.cur_time + 10 ≤ r.cur_time) × IsSpaced (q ∷ rest)

abbrev IsLatest : ℕ → List Report → Type 0
IsLatest t [] = Unit
IsLatest t (r ∷ rest) = r.cur_time ≡ t

abbrev IsSound : Backend → Type 0
IsSound s = IsSpaced s.reports × IsLatest s.prev_time s.reports

-- What a flow has reported so far.
abbrev pub AllFlow : (Backend → Type 0) → Flow → Type 0
AllFlow P (running s) = P s
AllFlow P (exited s) = P s
AllFlow P (undefined s) = P s

IsSpaced-cons :
    (r : Report) (t : ℕ) (rs : List Report)
    → t + 10 ≤ r.cur_time
    → IsSpaced rs
    → IsLatest t rs
    → IsSpaced (r ∷ rs)
IsSpaced-cons r t [] late h l = tt
IsSpaced-cons r t (q ∷ rs) late h l = (omega arith, h)

abbrev latest : Round → Report
latest r = record {
  cur_time = r.cur_time;
  resource_usage = u32 (u32 r.cpu_usage + u32 (r.ram_usage / 1000000));
}

report_due-IsSound :
    (algorithm : ℕ) (r : Round) (s : Backend) → IsSound s → IsSound (report_due algorithm r s)
report_due-IsSound algorithm r s h = elim (Bool-cases (is_due algorithm r s)) [
  | inl due ↦ rw due (IsSpaced-cons (latest r) s.prev_time s.reports (ground arith) h.0 h.1, refl)
  | inr early ↦ rw early h
]

continue_flow :
    (f : Flow) (k : Backend → Flow)
    → AllFlow IsSound f
    → ((t : Backend) → IsSound t → AllFlow IsSound (k t))
    → AllFlow IsSound (elim f [ running t ↦ k t | exited t ↦ exited t | undefined t ↦ undefined t ])
continue_flow (running t) k h next = next t h
continue_flow (exited t) k h next = h
continue_flow (undefined t) k h next = h

IsSpaced-of_sound : (f : Flow) → AllFlow IsSound f → AllFlow (λ s. IsSpaced s.reports) f
IsSpaced-of_sound (running s) h = h.0
IsSpaced-of_sound (exited s) h = h.0
IsSpaced-of_sound (undefined s) h = h.0

module _ (lb_sock algorithm : ℕ) where
  backend_events-IsSound :
      (es : List Event) (s : Backend) → IsSound s → AllFlow IsSound (backend_events lb_sock es s)
  unfolding backend_events
  backend_events-IsSound [] s h = h
  backend_events-IsSound (accepted fd ∷ es) s h =
      backend_events-IsSound es (record s { epoll = watch fd s.epoll }) h
  backend_events-IsSound (readable fd (got bytes) ∷ es) s h =
      backend_events-IsSound es (record s { epoll = echo fd bytes s.epoll }) h
  backend_events-IsSound (readable fd eof ∷ es) s h = elim (Bool-cases (fd == lb_sock)) [
    | inl lost ↦ rw lost h
    | inr gone ↦ rw gone (backend_events-IsSound es (record s { epoll = unwatch fd s.epoll }) h)
  ]
  backend_events-IsSound (readable fd failed ∷ es) s h = h

  run_backend-IsSound :
      (rounds : List Round) (s : Backend)
      → IsSound s
      → AllFlow IsSound (run_backend lb_sock algorithm rounds s)
  unfolding run_backend
  run_backend-IsSound [] s h = h
  run_backend-IsSound (r ∷ rounds) s h =
      continue_flow (backend_events lb_sock r.events (report_due algorithm r s))
        (run_backend lb_sock algorithm rounds)
        (backend_events-IsSound r.events (report_due algorithm r s)
          (report_due-IsSound algorithm r s h))
        (run_backend-IsSound rounds)

  -- Whatever the clock shows and whatever happens on the sockets, a server that starts with no
  -- report sends its reports in rounds whose clock readings are at least 10 seconds apart, up to the
  -- `read` that fails if there is one, whose length of -1 `write` is then given. The reading is that
  -- at the start of the round: `get_cpu_usage` sleeps for a second before the report is sent.
  pub run_backend-IsSpaced :
      (rounds : List Round) (epoll : Epoll)
      → AllFlow
          (λ s. IsSpaced s.reports)
          (run_backend lb_sock algorithm rounds
            (record { prev_time = 0; reports = []; epoll = epoll }))
  run_backend-IsSpaced rounds epoll = IsSpaced-of_sound _ (run_backend-IsSound rounds _ (tt, tt))

-- With the resource-based algorithm, no report is overdue behind line 162: the last one is less than
-- 10 seconds old. With the others none is sent.
pub report_due-recent :
    (r : Round) (s : Backend)
    → (r.cur_time < (report_due resource_algorithm r s).prev_time + 10)
      × ((algorithm : ℕ) → algorithm < resource_algorithm → report_due algorithm r s ≡ s)
report_due-recent r s = (ground arith, λ algorithm h. ground arith)
