-- ===== src/Chat/Tests/Clients.antt =====
-- Two clients of the chat at a concrete line.
use io_t_lab.Common.{
  IsLine, ◌≡◌, ◌≤◌, ℕ, refl, List, [], ◌∷◌, some, false, arith, replicate, concat, map, length,
  Returns,
}
use io_t_lab.Echo.{got}
use io_t_lab.Chat.{send_msg}
use io_t_lab.Chat.Threads.{Server, accepting, serving, Reach}
use io_t_lab.Chat.Client.{Typed, send_rounds, run_sender, recv_msg}
use io_t_lab.Chat.Client.Bounds.{run_sender-Returns_iff}
use io_t_lab.Chat.Client.Shown.{labelled, after_chunks, recv_msg-typed}

-- "bob" types "hi".
abbrev bob : List ℕ
bob = 98 ∷ 111 ∷ 98 ∷ []

abbrev hi : List ℕ
hi = 104 ∷ 105 ∷ []

hi-IsLine : IsLine 98 hi
hi-IsLine = record {
  no_end = (omega arith, (omega arith, tt));
  no_nul = (omega arith, (omega arith, tt));
  short = omega arith;
  stays = refl;
}

abbrev typed : Typed
typed = record { messages = labelled bob hi ∷ []; exited = false }

run_sender-hi : run_sender 1 bob (104 ∷ 105 ∷ 10 ∷ []) ≡ some typed
unfolding run_sender send_rounds
run_sender-hi = refl

abbrev serving_two : Server
serving_two = record {
  chat = record { clnt_cnt = 2; clnt_socks = 4 ∷ 5 ∷ replicate 254 0 };
  clnt_sock = 5;
  main = accepting;
  threads = serving 4 ∷ serving 5 ∷ [];
  written = [];
}

-- "[bob] " and "hi\n", and what arrives cut elsewhere.
abbrev chunks : List (List ℕ)
chunks = (91 ∷ 98 ∷ 111 ∷ 98 ∷ 93 ∷ 32 ∷ []) ∷ (104 ∷ 105 ∷ 10 ∷ []) ∷ []

abbrev parts : List (List ℕ)
parts = (91 ∷ 98 ∷ []) ∷ (111 ∷ 98 ∷ 93 ∷ 32 ∷ 104 ∷ 105 ∷ 10 ∷ []) ∷ []

recv_msg-typed_example :
    Reach serving_two (after_chunks chunks serving_two)
    × (concat (recv_msg (map got parts)) ≡ concat (map (labelled bob) (hi ∷ [])))
unfolding send_msg
recv_msg-typed_example =
    recv_msg-typed bob (hi ∷ []) typed serving_two 0 4 5 chunks parts
      (omega arith, (omega arith, (omega arith, tt))) (hi-IsLine, tt) run_sender-hi refl refl refl
      refl

run_sender-Returns_iff_example :
    (Returns (run_sender 9 bob hi) → length bob ≤ 17)
    × (length bob ≤ 17 → Returns (run_sender 9 bob hi))
run_sender-Returns_iff_example = run_sender-Returns_iff 9 bob hi
