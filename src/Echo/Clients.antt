-- ===== src/Echo/Clients.antt =====
-- The clients of the echo servers: L4LB/echo_client.c, which tests for the end of the stream, and
-- lab05/lab05_src/echo_client.c, which does not. `read` returns the readings in their order; at the
-- end of the list, and at the end of the entries, the client waits.
pub mod Answered
mod Tests
use io_t_lab.Common.{
  is_quit, ℕ, ◌+◌, List, [], ◌∷◌, ◌++◌, Option, none, some, Bool, true, false, ltb, leb, ◌==◌,
  if◌then◌else◌, length, take, c_string, drop,
}
use io_t_lab.Echo.{Reading, got, eof, failed}

-- BUF_SIZE
abbrev pub buf_size : ℕ
buf_size = 1024

-- Bytes written into `message` from an index on.
abbrev pub overlay : ℕ → List ℕ → List ℕ → List ℕ
overlay at bytes message = take at message ++ bytes ++ drop (at + length bytes) message

-- How the inner loop ends: with the buffer, recv_len and the readings to come; by error_handling;
-- in a `read` that does not return; or with bytes past the end of `message`.
pub data Received : Type 0 where
  received : List ℕ → ℕ → List Reading → Received
  broken blocked overran : Received

-- A line from `fgets`, and what `write` makes of it: none is -1.
pub record Entry : Type 0 where
  pub line : List ℕ
  pub wrote : Option ℕ

pub data Ended : Type 0 where
  closed exited waiting undefined : Ended

module _ (tests_eof : Bool) where
  -- Lines 48-56, with str_len. A negative str_len is written 0: no byte is read for either.
  unfoldable pub read_echo : ℕ → List Reading → List ℕ → ℕ → Received
  read_echo str_len [] message recv_len =
      if ltb recv_len str_len then blocked else received message recv_len []
  read_echo str_len (got bytes ∷ rs) message recv_len =
      let rest = read_echo str_len rs (overlay recv_len bytes message) (recv_len + length bytes) in
      if ltb recv_len str_len
      then (if leb (recv_len + length bytes) buf_size then rest else overran)
      else received message recv_len (got bytes ∷ rs)
  read_echo str_len (eof ∷ rs) message recv_len =
      let rest = read_echo str_len rs message recv_len in
      if ltb recv_len str_len
      then (if tests_eof then broken else rest)
      else received message recv_len (eof ∷ rs)
  read_echo str_len (failed ∷ rs) message recv_len =
      if ltb recv_len str_len then broken else received message recv_len (failed ∷ rs)

  abbrev str_len_of : Option ℕ → ℕ
  str_len_of none = 0
  str_len_of (some n) = n

  -- Lines 37-63: the messages printed, and how the program ends.
  unfoldable pub run_echo : List Entry → List Reading → List ℕ → List (List ℕ) × Ended
  unfolding read_echo
  run_echo [] rs message = ([], waiting)
  run_echo (e ∷ es) rs message =
      let typed = overlay 0 (e.line ++ 0 ∷ []) message in
      if is_quit (c_string typed)
      then ([], closed)
      else elim (read_echo (str_len_of e.wrote) rs typed 0) [
        | broken ↦ ([], exited)
        | blocked ↦ ([], waiting)
        | overran ↦ ([], undefined)
        | received filled recv_len rest ↦
            let ended = overlay recv_len (0 ∷ []) filled in
            let later = run_echo es rest ended in
            if ltb recv_len buf_size then (c_string ended ∷ later.0, later.1) else ([], undefined)
      ]

-- The two programs.
abbrev pub run_l4lb_client : List Entry → List Reading → List ℕ → List (List ℕ) × Ended
run_l4lb_client = run_echo true

abbrev pub run_lab05_client : List Entry → List Reading → List ℕ → List (List ℕ) × Ended
run_lab05_client = run_echo false
