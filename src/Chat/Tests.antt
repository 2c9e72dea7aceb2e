-- ===== src/Chat/Tests.antt =====
-- The chat server of lab05/lab05_src/chat_serv.c at concrete lists.
mod Clients
use io_t_lab.Common.{◌≡◌, refl, ◌∷◌, some, arith, replicate, get_elem?}
use io_t_lab.Chat.{Chat, leave}
use io_t_lab.Chat.Threads.{Server, Reach, start, Step, joining, overran}
use io_t_lab.Chat.Threads.Race.{after_two, Reach-after_two}
use io_t_lab.Chat.Leave.{IsLeft, leave-IsLeft}

abbrev three : Chat
three = record { clnt_cnt = 3; clnt_socks = 4 ∷ 5 ∷ 6 ∷ replicate 253 0 }

leave_loses :
    leave 4 three ≡ some (record { clnt_cnt = 2; clnt_socks = 4 ∷ 6 ∷ 0 ∷ replicate 253 0 })
unfolding leave
leave_loses = refl

leave-IsLeft_example : (t : Chat) × (leave 5 three ≡ some t) × IsLeft three t 1
leave-IsLeft_example = leave-IsLeft three 5 1 refl (omega arith) (omega arith)

-- Two connections to the server as it starts; both threads serve the second.
abbrev two_joined : Server
two_joined = after_two 4 5 (start 0)

Reach-after_two_example :
    Reach (start 0) two_joined
    × (get_elem? two_joined.chat.clnt_socks 0 ≡ some 4)
    × (get_elem? two_joined.chat.clnt_socks 1 ≡ some 5)
Reach-after_two_example = Reach-after_two 4 5 (start 0) refl (omega arith) (omega arith)
