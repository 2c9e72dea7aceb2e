-- ===== src/Chat/Threads/Counted.antt =====
-- clnt_cnt of lab05/lab05_src/chat_serv.c counts the connections whose thread has not ended.
use io_t_lab.Common.{
  ℕ, zero, suc, ◌+◌, ◌<◌, ◌≤◌, ◌≡◌, arith, List, [], ◌∷◌, some, incr, decr, get_elem?, set, length,
}
use io_t_lab.Chat.{Chat}
use io_t_lab.Chat.Threads.{
  Main, accepting, joining, spawning, overran, Thread, started, gone, serving, Server, max_clnt,
}

-- The threads that have not ended.
abbrev pub live : List Thread → ℕ
live [] = 0
live (gone ∷ ts) = live ts
live (started ∷ ts) = suc (live ts)
live (serving sock ∷ ts) = suc (live ts)

-- A client that is in the list and has no thread yet.
abbrev pub pending : Main → ℕ
pending accepting = 0
pending joining = 0
pending spawning = 1
pending overran = 0

pub record IsCounted (s : Server) : Type 0 where
  pub counted : s.chat.clnt_cnt ≡ live s.threads + pending s.main
  pub room : length s.chat.clnt_socks ≡ max_clnt
  pub within : s.chat.clnt_cnt ≤ max_clnt

live-left :
    (ts : List Thread) (i sock : ℕ)
    → get_elem? ts i ≡ some (serving sock)
    → live (set ts i gone) + 1 ≡ live ts
live-left [] i sock h = cc
live-left (gone ∷ ts) zero sock h = cc
live-left (started ∷ ts) zero sock h = omega arith
live-left (serving s ∷ ts) zero sock h = omega arith
live-left (gone ∷ ts) (suc i) sock h = live-left ts i sock h
live-left (started ∷ ts) (suc i) sock h = omega (arith, live-left ts i sock h)
live-left (serving s ∷ ts) (suc i) sock h = omega (arith, live-left ts i sock h)

-- What `leave` does to the count and the array, whether it finds the socket or not.
abbrev IsLowered : Chat → Chat → Type 0
IsLowered c d = (d.clnt_cnt ≡ decr c.clnt_cnt) × (length d.clnt_socks ≡ length c.clnt_socks)

-- What `join` does: it fits, counts one more and keeps the array's length.
abbrev IsRaised : Chat → Chat → Type 0
IsRaised c d =
    (c.clnt_cnt < length c.clnt_socks)
    × (d.clnt_cnt ≡ incr c.clnt_cnt)
    × (length d.clnt_socks ≡ length c.clnt_socks)

live-of_serving :
    (ts : List Thread) (i sock : ℕ) → get_elem? ts i ≡ some (serving sock) → 0 < live ts
live-of_serving ts i sock h = omega (arith, live-left ts i sock h)
