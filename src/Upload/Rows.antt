-- ===== src/Upload/Rows.antt =====
-- What lab05/lab05_src/fileup_serv_dir/fileup_serv.c stores.
use io_t_lab.Common.{
  ℕ, ◌<◌, ◌≡◌, ◌≢◌, ◌∙◌, refl, sym, List, [], ◌∷◌, ◌++◌, map, Option, some, Bool-cases, inl, inr,
  arith, ◌==◌, get_elem?, get_elem?-set_ne, get_elem?-set_self, length, length-set, All, Ensures,
  Ensures->>=, Ensures-elim, Ensures-intro,
}
use mathlib.Core.List.{append_assoc, append-nil}
use io_t_lab.Echo.{Reading, got, eof, failed}
use io_t_lab.Upload.{
  null, block, ClntFile, Stored, Upload, Ready, fresh, client, free, put, read_data, fd_of,
  dir_event, run_dir,
}

module _ (opened : List ℕ → Option (List ℕ)) (fd : ℕ) where
  abbrev Keeps : Upload → Upload → Type 0
  Keeps s t = get_elem? t.clnt_array fd ≡ get_elem? s.clnt_array fd

  read_data-Keeps :
      (row : ℕ) (c : ClntFile) (r : Reading) (s : Upload)
      → row ≢ fd
      → Ensures (Keeps s) (read_data row c r s)
  read_data-Keeps row c (got bytes) s other = Ensures->>= (Keeps s) c.fp _ λ file e. refl
  read_data-Keeps row c failed s other = tt
  read_data-Keeps row c eof s other = Ensures->>= (Keeps s) c.fp _ λ file e.
      Ensures->>= (Keeps s) (free c.filename) _
        λ name e'. get_elem?-set_ne s.clnt_array row fd _ other

  dir_event-Keeps :
      (e : Ready) (s : Upload) → fd_of opened e ≢ fd → Ensures (Keeps s) (dir_event opened e s)
  unfolding dir_event
  dir_event-Keeps (fresh f) s other = Ensures->>= (Keeps s) (get_elem? s.clnt_array f) _ λ c found.
      Ensures->>= (Keeps s) (free c.filename) _ λ name e. get_elem?-set_ne s.clnt_array f fd _ other
  dir_event-Keeps (client f a) s other =
      Ensures->>= (Keeps s) (get_elem? s.clnt_array f) _ λ c found.
        elim (Bool-cases (c.flag == 0)) [
          | inl data_next ↦ rw data_next (read_data-Keeps f c a.data_read s other)
          | inr header_next ↦ rw header_next (get_elem?-set_ne s.clnt_array f fd _ other)
        ]

  -- Events of other clients leave a client's row alone, whatever they are, unless they run into
  -- undefined behaviour.
  pub run_dir-kept :
      (es : List Ready) (s : Upload)
      → All (λ e. fd_of opened e ≢ fd) es
      → Ensures (λ t. get_elem? t.clnt_array fd ≡ get_elem? s.clnt_array fd) (run_dir opened es s)
  unfolding run_dir
  run_dir-kept [] s h = refl
  run_dir-kept (e ∷ es) s h = Ensures->>= (Keeps s) (dir_event opened e s) _ λ t ran.
      let first = Ensures-elim (Keeps s) (dir_event opened e s) t ran (dir_event-Keeps e s h.0) in
      Ensures-intro (Keeps s) (run_dir opened es t) λ u went.
        Ensures-elim (Keeps t) (run_dir opened es t) u went (run_dir-kept es t h.1) ∙ first

abbrev pub data_event : ℕ → List ℕ → Ready
data_event fd bytes = client fd (record { filename_len = 0; filename = []; data_read = got bytes })

-- Bytes that are written to one file.
abbrev pub stored_in : List ℕ → List (List ℕ) → List Stored
stored_in file chunks = map (λ bytes. record { file = file; bytes = bytes }) chunks

module _ (opened : List ℕ → Option (List ℕ)) (fd : ℕ) (file : List ℕ) where
  run_dir-chunks :
      (chunks : List (List ℕ)) (s : Upload) (c : ClntFile)
      → get_elem? s.clnt_array fd ≡ some c
      → c.flag ≡ 0
      → c.fp ≡ some file
      → (t : Upload) × (run_dir opened (map (data_event fd) chunks) s ≡ some t)
        × (t.stored ≡ s.stored ++ stored_in file chunks)
  unfolding run_dir dir_event
  run_dir-chunks [] s c row ready file_open = (s, refl, sym (append-nil s.stored))
  run_dir-chunks (bytes ∷ chunks) s c row ready file_open =
      let s' : Upload = record s {
        stored = s.stored ++ record { file = file; bytes = bytes } ∷ [];
      } in
      let (t, ran, all) = run_dir-chunks chunks s' c row ready file_open in
      (t, rw (row, ready, file_open) ran, all ∙ append_assoc s.stored _ _)

  -- A client with a row of its own, whose file can be opened, uploads: its connection, its header and
  -- then its data in any number of chunks leave the chunks in its file, in order, behind what was
  -- stored before.
  pub run_dir-stored :
      (name : List ℕ) (chunks : List (List ℕ)) (s : Upload) (c : ClntFile)
      → get_elem? s.clnt_array fd ≡ some c
      → fd < length s.clnt_array
      → c.filename ≡ null
      → opened name ≡ some file
      → (t : Upload) × (run_dir opened
            (fresh fd
              ∷ client fd (record { filename_len = length name; filename = name; data_read = eof })
              ∷ map (data_event fd) chunks)
            s
          ≡ some t)
        × (t.stored ≡ s.stored ++ stored_in file chunks)
  unfolding run_dir dir_event
  run_dir-stored name chunks s c row inside clean opens =
      let accepted : ClntFile = record c { filename = null; flag = 1 } in
      let s1 = put fd accepted s in
      let ready : ClntFile = record {
        flag = 0;
        filename_len = length name;
        filename = block name;
        fp = opened name;
      } in
      let s2 = put fd ready s1 in
      let (t, ran, all) =
        run_dir-chunks chunks s2 ready
          (get_elem?-set_self s1.clnt_array fd ready
            (omega (arith, length-set s.clnt_array fd accepted)))
          refl opens in
      (t, rw (row, clean, get_elem?-set_self s.clnt_array fd accepted inside) ran, all)
