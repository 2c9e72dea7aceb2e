-- ===== src/Sockets/Tests.antt =====
-- SocketUtil::Select and the echo server of lab06 with a `select` that finds the sets' members ready.
use io_t_lab.Common.{
  ℕ, ◌≡◌, refl, List, [], ◌∷◌, Option, none, some, Bool, false, ◌&&◌, ltb, arith, if◌then◌else◌,
  signed_lt, minus_one, ◌==◌,
}
use io_t_lab.Echo.{eof}
use io_t_lab.Sockets.{is_set, Vectors, SelectCall, select_sockets, receive, bind}
use io_t_lab.Sockets.Ready.{Keeps, IsSelect, select_sockets-filled}
use io_t_lab.Sockets.EchoServ.{Serv, Turn, run_serv}
use io_t_lab.Sockets.EchoServ.Kept
use io_t_lab.Sockets.EchoServ.Kept.{run_serv-Keeps}

-- What is in a set, ready and below nfds.
abbrev keep : (ℕ → Bool) → ℕ → List ℕ → List ℕ
keep ready nfds [] = []
keep ready nfds (fd ∷ set) =
    if ltb fd nfds && ready fd then fd ∷ keep ready nfds set else keep ready nfds set

abbrev keep_in : (ℕ → Bool) → ℕ → Option (List ℕ) → List ℕ
keep_in ready nfds none = []
keep_in ready nfds (some set) = keep ready nfds set

abbrev select_at : (ℕ → Bool) → SelectCall
select_at ready nfds r w e = record {
  count = 1;
  read = keep_in ready nfds r;
  write = keep_in (λ fd. false) nfds w;
  except = keep_in (λ fd. false) nfds e;
}

keep-Keeps :
    (ready : ℕ → Bool) (nfds : ℕ) (set : List ℕ) (fd : ℕ)
    → is_set fd (keep ready nfds set) ≡ (is_set fd set && (ltb fd nfds && ready fd))
keep-Keeps ready nfds [] fd = refl
keep-Keeps ready nfds (x ∷ set) fd = ground (arith, keep-Keeps ready nfds set fd)

keep_in-Keeps :
    (ready : ℕ → Bool) (nfds : ℕ) (set : Option (List ℕ))
    → Keeps ready nfds set (keep_in ready nfds set)
keep_in-Keeps ready nfds none = tt
keep_in-Keeps ready nfds (some set) = keep-Keeps ready nfds set

select_at-IsSelect :
    (ready : ℕ → Bool) → IsSelect ready (λ fd. false) (λ fd. false) (select_at ready)
select_at-IsSelect ready nfds r w e p = (
  keep_in-Keeps ready nfds r,
  keep_in-Keeps (λ fd. false) nfds w,
  keep_in-Keeps (λ fd. false) nfds e,
)

abbrev four_ready : ℕ → Bool
four_ready fd = fd == 4

abbrev given : Vectors
given = record { reads = some (some 3 ∷ some 4 ∷ []); writes = some (some 4 ∷ []); excepts = none }

abbrev unfilled : Vectors
unfilled = record { reads = some []; writes = some (some 9 ∷ []); excepts = some [] }

select_sockets-filled_example :
    (count : ℕ) × (select_sockets (select_at four_ready) given unfilled
      ≡ some (
        count,
        if signed_lt 0 count
            then record { reads = some (some 4 ∷ []); writes = some []; excepts = some [] }
            else unfilled,
      ))
select_sockets-filled_example =
    select_sockets-filled four_ready (λ fd. false) (λ fd. false) (select_at four_ready) given
      unfilled (select_at-IsSelect four_ready) (omega arith) (omega arith) tt

-- A client comes on the listening socket 3, and closes.
abbrev joins : Turn
joins = record { select = select_at (λ fd. fd == 3); accepted = some 4; reading = λ fd. eof }

abbrev closes : Turn
closes = record { select = select_at (λ fd. fd == 4); accepted = some 5; reading = λ fd. eof }

abbrev listening : Serv
listening = record { sockets = some 3 ∷ []; readable = []; written = [] }

run_serv-Keeps_example : Kept.Keeps listening (run_serv 3 (joins ∷ closes ∷ []) listening)
run_serv-Keeps_example =
    run_serv-Keeps 3 (joins ∷ closes ∷ []) listening
      (
        ((λ fd. fd == 3, select_at-IsSelect (λ fd. fd == 3)), omega arith),
        (((λ fd. fd == 4, select_at-IsSelect (λ fd. fd == 4)), omega arith), tt),
      )
      (omega arith, tt)

-- -EAGAIN is -11; Bind returns errno itself.
receive_failed : receive 11 minus_one ≡ 0xfffffff5
receive_failed = refl

bind_failed : bind 98 minus_one ≡ 98
bind_failed = refl
