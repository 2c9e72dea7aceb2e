-- ===== src/Echo.antt =====
-- The echo servers of lab05/lab05_src: echo_EPLTserv.c and echo_epollserv.c, level-triggered, and
-- echo_EPETserv.c, edge-triggered. Events are what `epoll_wait`, `accept` and `read` return.
pub mod Streams
pub mod Backend
pub mod Reports
pub mod Clients
pub mod Select
mod Tests
use io_t_lab.Common.{ℕ, List, [], ◌∷◌, ◌++◌, Option, none, some, ◌>>=◌, ◌==◌, if◌then◌else◌}

-- What a `read` returns: bytes, 0, or -1.
pub data Reading : Type 0 where
  got : List ℕ → Reading
  eof failed : Reading

-- A ready descriptor: the listening socket with what `accept` returns, or a client.
pub data Event : Type 0 where
  accepted : ℕ → Event
  readable : ℕ → Reading → Event

-- A `write` to a client.
pub record Echoed : Type 0 where
  pub fd : ℕ
  pub bytes : List ℕ

-- The descriptors in the epoll set beside the listening socket, and what was written.
pub record Epoll : Type 0 where
  pub watched : List ℕ
  pub written : List Echoed

abbrev pub without : ℕ → List ℕ → List ℕ
without fd [] = []
without fd (x ∷ xs) = if fd == x then without fd xs else x ∷ without fd xs

abbrev pub watch : ℕ → Epoll → Epoll
watch fd s = record s { watched = fd ∷ s.watched }

abbrev pub unwatch : ℕ → Epoll → Epoll
unwatch fd s = record s { watched = without fd s.watched }

abbrev pub echo : ℕ → List ℕ → Epoll → Epoll
echo fd bytes s = record s { written = s.written ++ record { fd = fd; bytes = bytes } ∷ [] }

-- Lines 61-83 of echo_EPLTserv.c. A failed `read` makes `write` run with the length -1.
unfoldable pub lt_event : Event → Epoll → Option Epoll
lt_event (accepted fd) s = some (watch fd s)
lt_event (readable fd (got bytes)) s = some (echo fd bytes s)
lt_event (readable fd eof) s = some (unwatch fd s)
lt_event (readable fd failed) s = none

-- The loops of lines 49-85.
unfoldable pub run_lt : List Event → Epoll → Option Epoll
unfolding lt_event
run_lt [] s = some s
run_lt (e ∷ es) s = lt_event e s >>= run_lt es

-- A ready descriptor of the edge-triggered server, with what its `read`s return up to the one that
-- ends the loop: bytes, or an error other than EAGAIN, and then 0 or EAGAIN.
pub data Reads : Type 0 where
  chunk : List ℕ → Reads → Reads
  retry : Reads → Reads
  ended again : Reads

pub data EdgeEvent : Type 0 where
  connected : ℕ → EdgeEvent
  drained : ℕ → Reads → EdgeEvent

-- Lines 76-95 of echo_EPETserv.c.
unfoldable pub et_reads : ℕ → Reads → Epoll → Epoll
et_reads fd (chunk bytes rs) s = et_reads fd rs (echo fd bytes s)
et_reads fd (retry rs) s = et_reads fd rs s
et_reads fd ended s = unwatch fd s
et_reads fd again s = s

unfoldable pub et_event : EdgeEvent → Epoll → Epoll
unfolding et_reads
et_event (connected fd) s = watch fd s
et_event (drained fd rs) s = et_reads fd rs s

-- The loops of lines 52-98.
unfoldable pub run_et : List EdgeEvent → Epoll → Epoll
unfolding et_event
run_et [] s = s
run_et (e ∷ es) s = run_et es (et_event e s)
