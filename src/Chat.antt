-- ===== src/Chat.antt =====
-- lab05/lab05_src/chat_serv.c: the list of client sockets that the threads share. Every function
-- runs under the mutex, so a history is a sequence of calls. `none` is an access outside the array.
pub mod Leave
pub mod Threads
pub mod Client
mod Tests
use io_t_lab.Common.{
  ℕ, zero, suc, ◌+◌, ◌-◌, ◌==◌, Bool, List, map, Option, none, some, ◌>>=◌, incr, decr, get_elem?,
  set, take, find_index, ltb, if◌then◌else◌, length,
}

-- `clnt_cnt` and `clnt_socks`, an array of MAX_CLNT.
pub record Chat : Type 0 where
  pub clnt_cnt : ℕ
  pub clnt_socks : List ℕ

-- A `write` of a message to a socket.
pub record Write : Type 0 where
  pub sock : ℕ
  pub msg : List ℕ

-- The members are the first `clnt_cnt` sockets.
abbrev pub members : Chat → List ℕ
members c = take c.clnt_cnt c.clnt_socks

-- Lines 50-52 of `main`. The program has no test against MAX_CLNT: `none` is its store past the end
-- of the array.
pub join : ℕ → Chat → Option Chat
join sock c =
    if ltb c.clnt_cnt (length c.clnt_socks)
    then some (record { clnt_cnt = incr c.clnt_cnt; clnt_socks = set c.clnt_socks c.clnt_cnt sock })
    else none

-- `send_msg`.
pub send_msg : List ℕ → Chat → List Write
send_msg msg c = map (λ sock. record { sock = sock; msg = msg }) (members c)

-- `while (i++ < clnt_cnt-1) clnt_socks[i] = clnt_socks[i+1];` with its rounds left. The body runs
-- after `i++`.
pub shift : ℕ → ℕ → List ℕ → Option (List ℕ)
shift zero i socks = some socks
shift (suc rounds) i socks =
    get_elem? socks (suc (suc i)) >>= λ v. shift rounds (suc i) (set socks (suc i) v)

abbrev pub is_sock : ℕ → ℕ → Bool
is_sock sock s = sock == s

-- Lines 71-82 of `handle_clnt`, when a client has gone.
unfoldable pub leave : ℕ → Chat → Option Chat
unfolding shift
leave sock c = elim (find_index (is_sock sock) (members c)) [
  | none ↦ some (record c { clnt_cnt = decr c.clnt_cnt })
  | some i ↦ shift (c.clnt_cnt - 1 - i) i c.clnt_socks >>= λ socks.
      some (record { clnt_cnt = decr c.clnt_cnt; clnt_socks = socks })
]
