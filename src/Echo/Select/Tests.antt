-- ===== src/Echo/Select/Tests.antt =====
-- The select server: a client comes in one round and writes in the next one.
use io_t_lab.Common.{
  ℕ, ◌≡◌, ◌∙◌, refl, sym, List, [], ◌∷◌, some, none, inl, inr, ◌==◌, ==_iff, arith, subst-some,
}
use io_t_lab.Echo.{got, eof, run_lt}
use io_t_lab.Echo.Select.{
  Round, Turn, timed_out, failed_select, selected, Reads, serve_round, serve_fds, serve_fd,
  accept_client, read_client, run_select,
}
use io_t_lab.Echo.Select.Agree.{Agrees}
use io_t_lab.Echo.Select.Rounds.{IsSelect, all_events, run_select-run_lt}

abbrev hi : List ℕ
hi = 104 ∷ 105 ∷ 10 ∷ []

-- The listening socket is 3.
abbrev start : Reads
start = record { served = record { watched = []; written = [] }; fd_max = 3 }

abbrev joined : Reads
joined = record { served = record { watched = 4 ∷ []; written = [] }; fd_max = 4 }

abbrev request_round : Round
request_round = record { ready = λ j. j == 3; request = some 4; reading = λ j. eof }

abbrev message_round : Round
message_round = record { ready = λ j. j == 4; request = none; reading = λ j. got hi }

abbrev turns : List Turn
turns = selected request_round ∷ timed_out ∷ selected message_round ∷ failed_select ∷ []

serve_round_request : serve_round 3 request_round start ≡ some joined
unfolding serve_round serve_fds serve_fd accept_client
serve_round_request = refl

turns-IsSelect : IsSelect 3 turns start
turns-IsSelect = (
  λ h. omega arith,
  λ j h. inl ((==_iff j 3).0 h),
  λ s' e.
      subst-some (IsSelect 3 (timed_out ∷ selected message_round ∷ failed_select ∷ []))
        (sym serve_round_request ∙ e) (λ h. cc, λ j h. inr (inl ((==_iff j 4).0 h)), λ s'' e'. tt),
)

run_select-run_lt_example :
    Agrees 3 0 (run_select 3 turns start) (run_lt (all_events 3 turns) start.served)
run_select-run_lt_example =
    run_select-run_lt 3 turns start (omega arith, tt, omega arith) turns-IsSelect

run_select_echo :
    run_select 3 turns start
    ≡ some (record {
      served = record { watched = 4 ∷ []; written = record { fd = 4; bytes = hi } ∷ [] };
      fd_max = 4;
    })
unfolding run_select serve_round serve_fds serve_fd read_client accept_client
run_select_echo = refl

-- FD_SET with the -1 of a failed `accept`.
run_select_failed_accept :
    run_select 3 (selected (record request_round { request = none }) ∷ []) start ≡ none
unfolding run_select serve_round serve_fds serve_fd accept_client
run_select_failed_accept = refl
