-- ===== src/Tcp/Tests.antt =====
-- The clients and the server of lab04 at concrete lines.
use io_t_lab.Common.{◌≡◌, refl, List, [], ◌∷◌, ◌++◌, none, true, All, concat, map, lines_of, arith}
use io_t_lab.Tcp.{send_lines, returned, run_server}
use io_t_lab.Tcp.Shown.{Visit, typed, IsVisit, readings, run_server-typed}

-- Types "hi" and "q"; the line comes in two pieces.
abbrev visit : Visit
visit = record {
  unset = 7 ∷ [];
  texts = (104 ∷ 105 ∷ []) ∷ [];
  left = 113 ∷ [];
  parts = (104 ∷ []) ∷ (105 ∷ 10 ∷ []) ∷ [];
}

-- Quits at once.
abbrev quits : Visit
quits = record { unset = []; texts = []; left = []; parts = [] }

visit-IsVisit : IsVisit visit
unfolding send_lines
visit-IsVisit = record {
  lines = (
    record {
      no_end = (omega arith, (omega arith, tt));
      no_nul = (omega arith, (omega arith, tt));
      short = omega arith;
      stays = refl;
    },
    tt,
  );
  arrived = refl;
}

quits-IsVisit : IsVisit quits
unfolding send_lines
quits-IsVisit = record { lines = tt; arrived = refl }

abbrev visits : List Visit
visits = visit ∷ quits ∷ visit ∷ quits ∷ visit ∷ []

run_server-typed_example :
    All (λ v. (typed v).closed ≡ true) visits
    × (run_server (map readings visits ++ none ∷ [])
        ≡ (concat (map (λ v. lines_of v.texts) visits), returned))
run_server-typed_example =
    run_server-typed visits (none ∷ []) refl
      (visit-IsVisit, (quits-IsVisit, (visit-IsVisit, (quits-IsVisit, (visit-IsVisit, tt)))))
