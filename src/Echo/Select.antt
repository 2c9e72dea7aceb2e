-- ===== src/Echo/Select.antt =====
-- lab05/lab05_src/echo_selectserv.c: the loop over `select`. `reads` is the listening socket and the
-- list `watched` of a record Epoll.
pub mod Agree
pub mod Rounds
mod Tests
use io_t_lab.Common.{
  ℕ, zero, suc, List, [], ◌∷◌, Option, none, some, ◌>>=◌, Bool, ltb, ◌==◌, if◌then◌else◌,
}
use io_t_lab.Echo.{Reading, got, eof, failed, Epoll, watch, unwatch, echo}

-- FD_SETSIZE: FD_SET of another descriptor is undefined.
abbrev pub fd_setsize : ℕ
fd_setsize = 1024

-- What `select` leaves in cpy_reads, what `accept` returns (none is -1), and what the `read` of each
-- descriptor returns.
pub record Round : Type 0 where
  pub ready : ℕ → Bool
  pub request : Option ℕ
  pub reading : ℕ → Reading

-- What `select` returns: 0, -1, or descriptors.
pub data Turn : Type 0 where
  timed_out failed_select : Turn
  selected : Round → Turn

pub record Reads : Type 0 where
  pub served : Epoll
  pub fd_max : ℕ

abbrev pub raise : ℕ → ℕ → ℕ
raise fd_max fd = if ltb fd_max fd then fd else fd_max

-- Lines 61-67.
unfoldable pub accept_client : Option ℕ → Reads → Option Reads
accept_client none s = none
accept_client (some fd) s =
    if ltb fd fd_setsize
    then some (record { served = watch fd s.served; fd_max = raise s.fd_max fd })
    else none

-- Lines 71-81. A failed `read` makes `write` run with the length -1.
unfoldable pub read_client : ℕ → Reading → Reads → Option Reads
read_client fd (got bytes) s = some (record s { served = echo fd bytes s.served })
read_client fd eof s = some (record s { served = unwatch fd s.served })
read_client fd failed s = none

module _ (serv_sock : ℕ) where
  unfoldable pub serve_fd : Round → ℕ → Reads → Option Reads
  unfolding accept_client read_client
  serve_fd r i s =
      if r.ready i
      then (if i == serv_sock then accept_client r.request s else read_client i (r.reading i) s)
      else some s

  -- The loop of lines 55-84, with fuel; fd_max can grow on the way.
  unfoldable pub serve_fds : ℕ → Round → ℕ → Reads → Option Reads
  unfolding serve_fd
  serve_fds zero r i s = none
  serve_fds (suc fuel) r i s =
      let rest = serve_fd r i s >>= serve_fds fuel r (suc i) in
      if ltb s.fd_max i then some s else rest

  unfoldable pub serve_round : Round → Reads → Option Reads
  unfolding serve_fds
  serve_round r s = serve_fds (suc fd_setsize) r 0 s

  -- Lines 43-85.
  unfoldable pub run_select : List Turn → Reads → Option Reads
  unfolding serve_round
  run_select [] s = some s
  run_select (timed_out ∷ ts) s = run_select ts s
  run_select (failed_select ∷ ts) s = some s
  run_select (selected r ∷ ts) s = serve_round r s >>= run_select ts
