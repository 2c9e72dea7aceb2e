-- ===== src/Upload/Interleaved.antt =====
-- One client's file on lab05/lab05_src/fileup_serv_dir/fileup_serv.c, while other clients upload.
use io_t_lab.Common.{
  ℕ, ◌<◌, ◌≡◌, ◌∙◌, refl, sym, ap, List, [], ◌∷◌, ◌++◌, length, map, concat, Option, some,
  subst-some, arith, lt→ltb,
}
use mathlib.Core.List.{append-nil, append_assoc}
use io_t_lab.Echo.{eof}
use io_t_lab.Upload.{Stored, Upload, Ready, fresh, client, run_dir}
use io_t_lab.Upload.Rows.{data_event}
use io_t_lab.Upload.Protocol.{
  max_user, idle, joined, storing, Clients, at, at_self, run_clients, no_clients,
}
use io_t_lab.Upload.Refined.{run_dir-IsRefined, no_upload, no_upload-IsRefined}
use io_t_lab.Upload.Written.{same_name_refl, written, written-append}
use io_t_lab.Upload.Alone.{only, IsOwn, IsAlone, run_clients-only}

abbrev pub name_event : ℕ → List ℕ → Ready
name_event fd name =
    client fd (record { filename_len = length name; filename = name; data_read = eof })

abbrev pub end_event : ℕ → Ready
end_event fd = client fd (record { filename_len = 0; filename = []; data_read = eof })

module _ (opened : List ℕ → Option (List ℕ)) (fd : ℕ) (file : List ℕ) where
  data-written :
      (chunks : List (List ℕ)) (c : Clients)
      → c.phase fd ≡ storing file
      → (d : Clients) × (run_clients opened (map (data_event fd) chunks ++ end_event fd ∷ []) c
          ≡ some d)
        × (written file d.writes ≡ written file c.writes ++ concat chunks)
  unfolding run_clients
  data-written [] c h = (
    record { phase = at fd idle c.phase; writes = c.writes ++ [] },
    rw h refl,
    written-append file c.writes [],
  )
  data-written (bytes ∷ chunks) c h =
      let w : Stored = record { file = file; bytes = bytes } in
      let c' : Clients = record {
        phase = at fd (storing file) c.phase;
        writes = c.writes ++ w ∷ [];
      } in
      let (d, ran, all) = data-written chunks c' (at_self fd fd (storing file) c.phase refl) in
      (
        d,
        rw h ran,
        all
            ∙ ap (◌++ concat chunks) (
                written-append file c.writes (w ∷ [])
                ∙ ap (λ bs. written file c.writes ++ bs)
                    (rw (same_name_refl file, append-nil bytes) refl))
            ∙ append_assoc (written file c.writes) bytes (concat chunks),
      )

  upload-written :
      (name : List ℕ) (chunks : List (List ℕ))
      → fd < max_user
      → opened name ≡ some file
      → (d : Clients) × (run_clients opened
            (fresh fd ∷ name_event fd name ∷ map (data_event fd) chunks ++ end_event fd ∷ [])
            no_clients
          ≡ some d)
        × (written file d.writes ≡ concat chunks)
  unfolding run_clients
  upload-written name chunks fits named =
      let c1 : Clients = record { phase = at fd joined (λ j. idle); writes = [] } in
      let c2 : Clients = record { phase = at fd (storing file) c1.phase; writes = [] } in
      let (d, ran, all) = data-written chunks c2 (at_self fd fd (storing file) c1.phase refl) in
      (d, rw (lt→ltb fd max_user fits, at_self fd fd joined (λ j. idle) refl, named) ran, all)

  -- If clients connect to the server as it starts, all of them keep to the protocol, and their
  -- events come in any order, and the events of one of them are its connection, a name that opens
  -- a file, its data in any pieces and the end, while no other client's event names a file that
  -- opens as this one, then the server handles all the events, and what it has written to the file
  -- is the client's data.
  pub run_dir-interleaved :
      (es : List Ready) (name : List ℕ) (chunks : List (List ℕ)) (b : Clients)
      → fd < max_user
      → opened name ≡ some file
      → run_clients opened es no_clients ≡ some b
      → only opened fd es
        ≡ fresh fd ∷ name_event fd name ∷ map (data_event fd) chunks ++ end_event fd ∷ []
      → IsOwn opened fd file es
      → (t : Upload) × (run_dir opened es no_upload ≡ some t)
        × (written file t.stored ≡ concat chunks)
  run_dir-interleaved es name chunks b fits named ran mine own =
      let (t, went, h) =
        run_dir-IsRefined opened es no_upload no_clients b no_upload-IsRefined ran in
      let start : IsAlone opened fd file no_clients no_clients = record {
        phase = refl;
        owner = λ j e. absurd (ground arith);
        same = refl;
      } in
      let (d, alone, k) =
        run_clients-only opened fd file es no_clients b no_clients own start ran in
      let (d', solo, all) = upload-written name chunks fits named in
      (
        t,
        went,
        ap (written file) h.stored
            ∙ sym k.same
            ∙ subst-some (λ (x : Clients). written file x.writes ≡ concat chunks)
                (sym solo ∙ ap (λ l. run_clients opened l no_clients) (sym mine) ∙ alone) all,
      )
