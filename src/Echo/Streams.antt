-- ===== src/Echo/Streams.antt =====
-- The echo servers of lab05/lab05_src write back what they read.
use io_t_lab.Common.{
  ℕ, List, [], ◌∷◌, ◌++◌, some, ◌==◌, if◌then◌else◌, ◌≡◌, ◌∙◌, refl, sym, ap, Bool-cases, inl, inr,
}
use mathlib.Core.List.{append_assoc, append-nil}
use io_t_lab.Echo.{
  got, eof, failed, Event, accepted, readable, Echoed, Epoll, watch, unwatch, echo, run_lt, Reads,
  chunk, retry, ended, again, EdgeEvent, connected, drained, et_reads, run_et,
}

-- What was written to a descriptor, as one stream.
abbrev pub written_to : ℕ → List Echoed → List ℕ
written_to fd [] = []
written_to fd (w ∷ ws) = if w.fd == fd then w.bytes ++ written_to fd ws else written_to fd ws

-- What was read from a descriptor.
abbrev pub read_from : ℕ → List Event → List ℕ
read_from fd [] = []
read_from fd (readable f (got bytes) ∷ es) =
    if f == fd then bytes ++ read_from fd es else read_from fd es
read_from fd (e ∷ es) = read_from fd es

abbrev pub NoFailure : List Event → Type 0
NoFailure [] = Unit
NoFailure (readable f failed ∷ es) = ⊥
NoFailure (e ∷ es) = NoFailure es

-- The level-triggered events that one edge-triggered event stands for.
abbrev pub of_reads : ℕ → Reads → List Event → List Event
of_reads fd (chunk bytes rs) es = readable fd (got bytes) ∷ of_reads fd rs es
of_reads fd (retry rs) es = of_reads fd rs es
of_reads fd ended es = readable fd eof ∷ es
of_reads fd again es = es

abbrev pub levels : List EdgeEvent → List Event
levels [] = []
levels (connected fd ∷ es) = accepted fd ∷ levels es
levels (drained fd rs ∷ es) = of_reads fd rs (levels es)

written_to-append :
    (fd : ℕ) (ws us : List Echoed) → written_to fd (ws ++ us) ≡ written_to fd ws ++ written_to fd us
written_to-append fd [] us = refl
written_to-append fd (w ∷ ws) us = elim (Bool-cases (w.fd == fd)) [
  | inl same ↦
      rw same (ap (λ r. w.bytes ++ r) (written_to-append fd ws us) ∙ sym (append_assoc w.bytes _ _))
  | inr other ↦ rw other (written_to-append fd ws us)
]

written_to-echo :
    (fd f : ℕ) (bytes : List ℕ) (s : Epoll) (es : List Event)
    → written_to fd (echo f bytes s).written ++ read_from fd es
      ≡ written_to fd s.written ++ read_from fd (readable f (got bytes) ∷ es)
written_to-echo fd f bytes s es = elim (Bool-cases (f == fd)) [
  | inl same ↦
      ap (λ r. r ++ read_from fd es) (written_to-append fd s.written _)
      ∙ rw same (
          ap (λ r. (written_to fd s.written ++ r) ++ read_from fd es) (append-nil bytes)
          ∙ append_assoc (written_to fd s.written) bytes (read_from fd es))
  | inr other ↦
      ap (λ r. r ++ read_from fd es) (written_to-append fd s.written _)
      ∙ rw other (ap (λ r. r ++ read_from fd es) (append-nil (written_to fd s.written)))
]

-- If no `read` fails, the level-triggered server goes through all events, and what it has written
-- to each descriptor is what was written before and then what was read from it, in order.
pub run_lt-written :
    (es : List Event) (s : Epoll)
    → NoFailure es
    → (t : Epoll) × (run_lt es s ≡ some t)
      × ((fd : ℕ) → written_to fd t.written ≡ written_to fd s.written ++ read_from fd es)
unfolding run_lt
run_lt-written [] s h = (s, refl, λ fd. sym (append-nil (written_to fd s.written)))
run_lt-written (accepted f ∷ es) s h = run_lt-written es (watch f s) h
run_lt-written (readable f (got bytes) ∷ es) s h =
    let (t, ran, all) = run_lt-written es (echo f bytes s) h in
    (t, ran, λ fd. all fd ∙ written_to-echo fd f bytes s es)
run_lt-written (readable f eof ∷ es) s h = run_lt-written es (unwatch f s) h
run_lt-written (readable f failed ∷ es) s h = absurd h

et_reads-run_lt :
    (fd : ℕ) (rs : Reads) (es : List Event) (s : Epoll)
    → run_lt (of_reads fd rs es) s ≡ run_lt es (et_reads fd rs s)
unfolding run_lt et_reads
et_reads-run_lt fd (chunk bytes rs) es s = et_reads-run_lt fd rs es (echo fd bytes s)
et_reads-run_lt fd (retry rs) es s = et_reads-run_lt fd rs es s
et_reads-run_lt fd ended es s = refl
et_reads-run_lt fd again es s = refl

-- The edge-triggered server does what the level-triggered one does when each of its reads that
-- returns bytes, and each that returns 0, is an event of its own.
pub run_et-run_lt : (es : List EdgeEvent) (s : Epoll) → run_lt (levels es) s ≡ some (run_et es s)
unfolding run_lt run_et
run_et-run_lt [] s = refl
run_et-run_lt (connected fd ∷ es) s = run_et-run_lt es (watch fd s)
run_et-run_lt (drained fd rs ∷ es) s =
    et_reads-run_lt fd rs (levels es) s ∙ run_et-run_lt es (et_reads fd rs s)
