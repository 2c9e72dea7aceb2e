-- ===== src/Echo/Clients/Tests.antt =====
-- The echo clients with a server that answers in two parts, one that closes and one that writes too
-- much.
use io_t_lab.Common.{ℕ, ◌≡◌, refl, List, [], ◌∷◌, ◌++◌, some, none, true, arith, map, replicate}
use io_t_lab.Echo.{got, failed}
use io_t_lab.Echo.Clients.{
  Entry, closed, exited, undefined, read_echo, run_echo, run_l4lb_client, run_lab05_client,
}
use io_t_lab.Echo.Clients.Answered.{Exchanged, entry, readings, run_echo-exchanged}

abbrev hello : List ℕ
hello = 104 ∷ 101 ∷ 108 ∷ 108 ∷ 111 ∷ 10 ∷ []

abbrev hi : List ℕ
hi = 104 ∷ 105 ∷ 10 ∷ []

abbrev two_parts : Exchanged
two_parts = record { line = hello; parts = (104 ∷ 101 ∷ []) ∷ (108 ∷ 108 ∷ 111 ∷ 10 ∷ []) ∷ [] }

abbrev one_part : Exchanged
one_part = record { line = hi; parts = hi ∷ [] }

abbrev quit : Entry
quit = record { line = 113 ∷ 10 ∷ []; wrote = none }

abbrev blank : List ℕ
blank = replicate 40 7

run_echo-exchanged_example :
    run_echo true
      (map entry (two_parts ∷ one_part ∷ []) ++ quit ∷ [])
      (readings (two_parts ∷ one_part ∷ []) ++ [])
      blank
    ≡ (hello ∷ hi ∷ [], closed)
run_echo-exchanged_example =
    run_echo-exchanged true (two_parts ∷ one_part ∷ []) quit [] blank
      (
        (omega arith, refl, omega arith, refl, omega arith),
        ((omega arith, refl, omega arith, refl, omega arith), tt),
      )
      (omega arith) refl

-- A part of 1023 bytes behind a first one fills `message`, so the NUL goes past its end; behind two,
-- the part itself does.
run_echo_nul_overruns :
    run_lab05_client
      (record { line = hi; wrote = some 3 } ∷ [])
      (got (104 ∷ []) ∷ got (replicate 1023 0) ∷ [])
      (replicate 1024 0)
    ≡ ([], undefined)
unfolding run_echo read_echo
run_echo_nul_overruns = refl

run_echo_part_overruns :
    run_lab05_client
      (record { line = hi; wrote = some 3 } ∷ [])
      (got (104 ∷ 105 ∷ []) ∷ got (replicate 1023 0) ∷ [])
      (replicate 1024 0)
    ≡ ([], undefined)
unfolding run_echo read_echo
run_echo_part_overruns = refl

run_echo_failed : run_l4lb_client (entry one_part ∷ []) (failed ∷ []) blank ≡ ([], exited)
unfolding run_echo read_echo
run_echo_failed = refl
