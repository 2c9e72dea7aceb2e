-- ===== src/Chat/Threads/Race.antt =====
-- Two connections in lab05/lab05_src/chat_serv.c before the first one's thread has run.
use io_t_lab.Common.{
  ℕ, ◌+◌, ◌<◌, ◌≤◌, ◌≡◌, ◌∙◌, refl, ap, sym, arith, List, [], ◌∷◌, ◌++◌, some, get_elem?,
  get_elem?-append_at, set-append_at, set, length, incr, lt→ltb, length-set, length-append,
  get_elem?-set_ne, get_elem?-set_self,
}
use mathlib.Core.Path.{subst}
use mathlib.Core.List.{append_assoc}
use io_t_lab.Chat.{Chat, join}
use io_t_lab.Chat.Threads.{
  accepting, Thread, started, serving, Server, accept, joined, spawn, begin, Reach, here, next,
  max_clnt,
}

-- The list with one more client.
abbrev pub with_client : ℕ → Chat → Chat
with_client sock c = record {
  clnt_cnt = incr c.clnt_cnt;
  clnt_socks = set c.clnt_socks c.clnt_cnt sock;
}

join-with_client :
    (sock : ℕ) (c : Chat)
    → c.clnt_cnt < length c.clnt_socks
    → join sock c ≡ some (with_client sock c)
unfolding join
join-with_client sock c h = rw (lt→ltb c.clnt_cnt (length c.clnt_socks) h) refl

-- The state when `main` has accepted two more connections and their threads have begun.
abbrev pub after_two : ℕ → ℕ → Server → Server
after_two first second s = record s {
  chat = with_client second (with_client first s.chat);
  clnt_sock = second;
  main = accepting;
  threads = s.threads ++ serving second ∷ serving second ∷ [];
}

-- The two new threads begin.
begin_two :
    (ts : List Thread) (sock : ℕ)
    → (get_elem? ((ts ++ started ∷ []) ++ started ∷ []) (length ts) ≡ some started)
      × (get_elem?
            (set ((ts ++ started ∷ []) ++ started ∷ []) (length ts) (serving sock))
            (length ts + 1)
          ≡ some started)
      × (set
            (set ((ts ++ started ∷ []) ++ started ∷ []) (length ts) (serving sock))
            (length ts + 1)
            (serving sock)
          ≡ ts ++ serving sock ∷ serving sock ∷ [])
begin_two ts sock =
    let joined_up : (ts ++ started ∷ []) ++ started ∷ [] ≡ ts ++ started ∷ started ∷ [] =
      append_assoc ts (started ∷ []) (started ∷ []) in
    let once : set ((ts ++ started ∷ []) ++ started ∷ []) (length ts) (serving sock)
        ≡ (ts ++ serving sock ∷ []) ++ started ∷ [] =
      ap (λ us. set us (length ts) (serving sock)) joined_up
      ∙ set-append_at (length ts) ts (started ∷ []) started (serving sock) refl
      ∙ sym (append_assoc ts (serving sock ∷ []) (started ∷ [])) in
    let len : length (ts ++ serving sock ∷ []) ≡ length ts + 1 =
      length-append ts (serving sock ∷ []) in
    (
      ap (λ us. get_elem? us (length ts)) joined_up
          ∙ get_elem?-append_at (length ts) ts (started ∷ []) started refl,
      ap (λ us. get_elem? us (length ts + 1)) once
          ∙ get_elem?-append_at (length ts + 1) (ts ++ serving sock ∷ []) [] started len,
      ap (λ us. set us (length ts + 1) (serving sock)) once
          ∙ set-append_at (length ts + 1) (ts ++ serving sock ∷ []) [] started (serving sock) len
          ∙ append_assoc ts (serving sock ∷ []) (serving sock ∷ []),
    )

-- From every state in which `main` waits in `accept` and the list has room for two, two connections
-- can come before the thread of the first has read clnt_sock: then both are in the list, both new
-- threads serve the second one, and no thread begins to serve the first.
pub Reach-after_two :
    (first second : ℕ) (s : Server)
    → s.main ≡ accepting
    → s.chat.clnt_cnt + 1 < length s.chat.clnt_socks
    → length s.chat.clnt_socks ≤ max_clnt
    → Reach s (after_two first second s)
      × (get_elem? (after_two first second s).chat.clnt_socks s.chat.clnt_cnt ≡ some first)
      × (get_elem? (after_two first second s).chat.clnt_socks (s.chat.clnt_cnt + 1) ≡ some second)
Reach-after_two first second s at room fits =
    let cnt : incr s.chat.clnt_cnt ≡ s.chat.clnt_cnt + 1 = omega arith in
    let one = with_client first s.chat in
    let two = with_client second one in
    let (ready, ready', ran) = begin_two s.threads second in
    let room' : one.clnt_cnt < length one.clnt_socks =
      omega (arith, length-set s.chat.clnt_socks s.chat.clnt_cnt first) in
    (
      subst
          (λ ts.
            Reach s (record s { chat = two; clnt_sock = second; main = accepting; threads = ts }))
          ran
          (next
            (next
              (next
                (next
                  (next
                    (next
                      (next (next here (accept first at))
                        (joined one refl (join-with_client first s.chat (omega arith))))
                      (spawn refl))
                    (accept second refl))
                  (joined two refl (join-with_client second one room')))
                (spawn refl))
              (begin (length s.threads) ready))
            (begin (length s.threads + 1) ready')),
      get_elem?-set_ne one.clnt_socks one.clnt_cnt s.chat.clnt_cnt second (omega arith)
          ∙ get_elem?-set_self s.chat.clnt_socks s.chat.clnt_cnt first (omega arith),
      ap (get_elem? two.clnt_socks) (sym cnt)
          ∙ get_elem?-set_self one.clnt_socks one.clnt_cnt second room',
    )
