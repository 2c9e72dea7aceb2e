-- ===== src/Upload/Tests/Interleaved.antt =====
-- Two uploads to lab05/lab05_src/fileup_serv_dir/fileup_serv.c at the same time.
use io_t_lab.Common.{ℕ, ◌≡◌, refl, List, [], ◌∷◌, some, arith, concat}
use io_t_lab.Upload.{Upload, Ready, fresh, run_dir}
use io_t_lab.Upload.Rows.{data_event}
use io_t_lab.Upload.Protocol.{Clients, run_clients, no_clients}
use io_t_lab.Upload.Refined.{IsRefined, no_upload, no_upload-IsRefined, run_dir-IsRefined}
use io_t_lab.Upload.Written.{written}
use io_t_lab.Upload.Interleaved.{name_event, end_event, run_dir-interleaved}

abbrev chunks : List (List ℕ)
chunks = (1 ∷ 2 ∷ []) ∷ (3 ∷ []) ∷ []

-- Client 5 uploads "A" and client 6 "B".
abbrev uploads : List Ready
uploads =
    fresh 5
    ∷ fresh 6
    ∷ name_event 5 (65 ∷ [])
    ∷ data_event 5 (1 ∷ 2 ∷ [])
    ∷ name_event 6 (66 ∷ [])
    ∷ data_event 6 (9 ∷ 9 ∷ [])
    ∷ data_event 5 (3 ∷ [])
    ∷ end_event 5
    ∷ data_event 6 (8 ∷ [])
    ∷ []

run_clients-Returns : (b : Clients) × (run_clients some uploads no_clients ≡ some b)
unfolding run_clients
run_clients-Returns = (_, refl)

run_dir-IsRefined_example :
    (t : Upload) × (run_dir some uploads no_upload ≡ some t) × IsRefined t run_clients-Returns.0
run_dir-IsRefined_example =
    run_dir-IsRefined some uploads no_upload no_clients run_clients-Returns.0 no_upload-IsRefined
      run_clients-Returns.1

run_dir-interleaved_example :
    (t : Upload) × (run_dir some uploads no_upload ≡ some t)
    × (written (65 ∷ []) t.stored ≡ concat chunks)
run_dir-interleaved_example =
    run_dir-interleaved some 5 (65 ∷ []) uploads (65 ∷ []) chunks run_clients-Returns.0
      (omega arith) refl run_clients-Returns.1 refl
      (
        λ e. refl,
        (
          λ e. ground arith,
          (
            λ e. refl,
            (
              λ e. refl,
              (
                λ e. ground arith,
                (λ e. ground arith, (λ e. refl, (λ e. refl, (λ e. ground arith, tt)))),
              ),
            ),
          ),
        ),
      )
