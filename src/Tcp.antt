-- ===== src/Tcp.antt =====
-- lab04/src/tcp_client.c and lab04/src/tcp_server.c: lines typed at one terminal, and five clients
-- in turn shown on another.
pub mod Shown
mod Tests
use io_t_lab.Common.{
  ℕ, zero, suc, List, [], ◌∷◌, ◌++◌, Option, none, some, Bool, true, false, if◌then◌else◌, c_string,
  fgets, is_quit,
}
use io_t_lab.Echo.{Reading, got, eof, failed}

-- BUF_SIZE
abbrev pub buf_size : ℕ
buf_size = 1024

-- Line 40: `message` up to its NUL, and the input left. At the end of the input `fgets` leaves
-- `message` as it is.
abbrev pub next_line : List ℕ → List ℕ → List ℕ × List ℕ
next_line message [] = (message, [])
next_line message (b ∷ bs) = let line = fgets buf_size (b ∷ bs) in (c_string line.0, line.1)

-- What is written to the socket, and whether it has been closed.
pub record Typed : Type 0 where
  pub lines : List (List ℕ)
  pub closed : Bool

-- The loop of tcp_client.c for a number of rounds.
unfoldable pub send_lines : ℕ → List ℕ → List ℕ → Typed
send_lines zero message input = record { lines = []; closed = false }
send_lines (suc n) message input =
    let line = next_line message input in
    let rest = send_lines n line.0 line.1 in
    if is_quit line.0
    then record { lines = []; closed = true }
    else record rest { lines = line.0 ∷ rest.lines }

-- How the loop over one client's `read`s ends: at the end of the stream, in a `read` that does not
-- return, or after one that fails, with a `write` of the length -1.
pub data Served : Type 0 where
  gone silent broken : Served

-- Lines 54-55 of tcp_server.c, with what is shown.
unfoldable pub read_client : List Reading → List ℕ × Served
read_client [] = ([], silent)
read_client (got bytes ∷ rs) = let rest = read_client rs in (bytes ++ rest.0, rest.1)
read_client (eof ∷ rs) = ([], gone)
read_client (failed ∷ rs) = ([], broken)

pub data Ended : Type 0 where
  returned exited blocked undefined : Ended

-- The next client comes only after the end of the stream.
abbrev pub go_on : List ℕ × Served → List ℕ × Ended → List ℕ × Ended
go_on (shown, gone) later = (shown ++ later.0, later.1)
go_on (shown, silent) later = (shown, blocked)
go_on (shown, broken) later = (shown, undefined)

-- The `for` loop with its rounds left; none is an `accept` that fails.
unfoldable pub serve_clients : ℕ → List (Option (List Reading)) → List ℕ × Ended
unfolding read_client
serve_clients zero clients = ([], returned)
serve_clients (suc n) [] = ([], blocked)
serve_clients (suc n) (none ∷ clients) = ([], exited)
serve_clients (suc n) (some readings ∷ clients) =
    go_on (read_client readings) (serve_clients n clients)

-- Lines 46-61: five clients.
abbrev pub run_server : List (Option (List Reading)) → List ℕ × Ended
run_server clients = serve_clients 5 clients
