-- ===== src/Chat/Threads.antt =====
-- The threads of lab05/lab05_src/chat_serv.c. `main` and the threads of `handle_clnt` take turns in
-- any order, and what runs under the mutex is one step. A thread is given the address of `main`'s
-- clnt_sock and reads it when it first runs.
pub mod Counted
pub mod Race
use io_t_lab.Common.{
  ℕ, suc, ◌≡◌, List, [], ◌∷◌, ◌++◌, none, some, get_elem?, set, replicate, length,
}
use io_t_lab.Chat.{Chat, Write, join, send_msg, leave}

-- MAX_CLNT
abbrev pub max_clnt : ℕ
max_clnt = 256

-- Where `main` is: before `accept`, before lines 50-52, before `pthread_create`, and behind a store
-- past the end of the array, when nothing more is said of it.
pub data Main : Type 0 where
  accepting joining spawning overran : Main

-- A thread before line 64, in its loop with its clnt_sock, and at its end.
pub data Thread : Type 0 where
  started gone : Thread
  serving : ℕ → Thread

pub record Server : Type 0 where
  pub chat : Chat
  -- The variable of `main`.
  pub clnt_sock : ℕ
  pub main : Main
  pub threads : List Thread
  pub written : List Write

pub data Step (s : Server) : Server → Type 0 where
  -- Line 48.
  accept : (sock : ℕ) → s.main ≡ accepting → Step s (record s { clnt_sock = sock; main = joining })
  -- Lines 50-52.
  joined :
      (c : Chat)
      → s.main ≡ joining
      → join s.clnt_sock s.chat ≡ some c
      → Step s (record s { chat = c; main = spawning })
  -- Lines 50-52, when the array is full.
  overrun : s.main ≡ joining → join s.clnt_sock s.chat ≡ none → Step s (record s { main = overran })
  -- Line 54.
  spawn :
      s.main ≡ spawning
      → Step s (record s { main = accepting; threads = s.threads ++ started ∷ [] })
  -- Line 64.
  begin :
      (i : ℕ)
      → get_elem? s.threads i ≡ some started
      → Step s (record s { threads = set s.threads i (serving s.clnt_sock) })
  -- Lines 68-69, when `read` returns bytes.
  message :
      (i sock : ℕ) (bytes : List ℕ)
      → get_elem? s.threads i ≡ some (serving sock)
      → Step s (record s { written = s.written ++ send_msg bytes s.chat })
  -- Lines 71-84, when `read` returns 0.
  left :
      (i sock : ℕ) (c : Chat)
      → get_elem? s.threads i ≡ some (serving sock)
      → leave sock s.chat ≡ some c
      → Step s (record s { chat = c; threads = set s.threads i gone })

pub data Reach (s : Server) : Server → Type 0 where
  here : Reach s s
  next : {t u : Server} → Reach s t → Step t u → Reach s u

-- The state when `main` enters its loop; clnt_sock is not set yet.
abbrev pub start : ℕ → Server
start unset = record {
  chat = record { clnt_cnt = 0; clnt_socks = replicate max_clnt 0 };
  clnt_sock = unset;
  main = accepting;
  threads = [];
  written = [];
}
