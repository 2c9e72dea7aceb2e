-- ===== src/Upload/Refined.antt =====
-- The rows that lab05/lab05_src/fileup_serv_dir/fileup_serv.c keeps for its clients.
use io_t_lab.Common.{
  ℕ, zero, suc, ◌<◌, ◌≡◌, ◌∙◌, refl, ap, List, [], ◌∷◌, ◌++◌, Option, some, none, Bool-cases,
  >>=-eq-some, subst-some, set-get, inl, inr, arith, ◌==◌, ltb, ltb→lt, get_elem?, get_elem?-set_ne,
  get_elem?-set_self, get_elem?-lt, get_elem?-of_lt, length, length-set, set, replicate,
  length-replicate, Returns,
}
use mathlib.Core.List.{append-nil}
use mathlib.Core.Path.{subst}
use io_t_lab.Echo.{Reading, got, eof, failed}
use io_t_lab.Upload.{
  null, block, ClntFile, Stored, Upload, Ready, fresh, client, read_data, fd_of, ready_row,
  dir_event, run_dir,
}
use io_t_lab.Upload.Protocol.{
  max_user, Phase, idle, joined, storing, Clients, at, read_step, step, event, run_clients,
  no_clients,
}

-- The row that stands for a descriptor in a phase.
abbrev pub Stands : Option ClntFile → Phase → Type 0
Stands none idle = Unit
Stands none joined = ⊥
Stands none (storing file) = ⊥
Stands (some c) idle = c.filename ≡ null
Stands (some c) joined = (c.filename ≡ null) × (c.flag ≡ 1)
Stands (some c) (storing file) =
    ((b : List ℕ) × (c.filename ≡ block b)) × (c.flag ≡ 0) × (c.fp ≡ some file)

pub record IsRefined (s : Upload) (a : Clients) : Type 0 where
  pub rows : length s.clnt_array ≡ max_user
  pub stands : (fd : ℕ) → Stands (get_elem? s.clnt_array fd) (a.phase fd)
  pub stored : s.stored ≡ a.writes

set-Stands :
    (cs : List ClntFile) (phase : ℕ → Phase) (fd : ℕ) (c : ClntFile) (p : Phase)
    → fd < length cs
    → Stands (some c) p
    → ((j : ℕ) → Stands (get_elem? cs j) (phase j))
    → (j : ℕ) → Stands (get_elem? (set cs fd c) j) (at fd p phase j)
set-Stands cs phase fd c p inside new old j = elim (Bool-cases (j == fd)) [
  | inl same ↦ let e : j ≡ fd = ground arith in rw (same, e, get_elem?-set_self cs fd c inside) new
  | inr other ↦ rw (other, get_elem?-set_ne cs fd j c (ground arith)) (old j)
]

-- The row after an event, which is written back when it stays as it is.
abbrev Goes : ℕ → Option Upload → Upload → Phase × List Stored → Type 0
Goes row m s r =
    (c : ClntFile) × (m
      ≡ some (record { clnt_array = set s.clnt_array row c; stored = s.stored ++ r.1 }))
    × Stands (some c) r.0

module _ (opened : List ℕ → Option (List ℕ)) where
  read_data-Goes :
      (row : ℕ) (file : List ℕ) (c : ClntFile) (reading : Reading) (s : Upload)
      (r : Phase × List Stored)
      → get_elem? s.clnt_array row ≡ some c
      → Stands (some c) (storing file)
      → read_step file reading ≡ some r
      → Goes row (read_data row c reading s) s r
  read_data-Goes row file c (got bytes) s r here h ran =
      subst-some (Goes row (read_data row c (got bytes) s) s) ran
        (c, rw (set-get s.clnt_array row here, h.2) refl, h)
  read_data-Goes row file c eof s r here h ran =
      subst-some (Goes row (read_data row c eof s) s) ran (
        record { flag = 0; filename_len = 0; filename = null; fp = none },
        rw (h.2, h.0.1, append-nil s.stored) refl,
        refl,
      )
  read_data-Goes row file c failed s r here h ran = absurd (ground arith)

  -- A client that is there has a row.
  row_of_step :
      (e : Ready) (o : Option ClntFile) (p : Phase) (r : Phase × List Stored)
      → (fd_of opened e < max_user → Returns o)
      → Stands o p
      → step opened p e ≡ some r
      → Returns o
  row_of_step e (some c) p r inside h ran = (c, refl)
  row_of_step (fresh fd) none idle r inside h ran = elim (Bool-cases (ltb fd max_user)) [
    | inl fits ↦ inside (ltb→lt fd max_user fits)
    | inr big ↦ absurd (ground arith)
  ]
  row_of_step (client fd a) none idle r inside h ran = absurd (ground arith)
  row_of_step e none joined r inside h ran = absurd h
  row_of_step e none (storing file) r inside h ran = absurd h

  ready_row-Goes :
      (row : ℕ) (e : Ready) (c : ClntFile) (p : Phase) (s : Upload) (r : Phase × List Stored)
      → get_elem? s.clnt_array row ≡ some c
      → Stands (some c) p
      → step opened p e ≡ some r
      → Goes row (ready_row opened row e c s) s r
  ready_row-Goes row (fresh fd) c idle s r here h ran = elim (Bool-cases (ltb fd max_user)) [
    | inl fits ↦
        subst-some (Goes row (ready_row opened row (fresh fd) c s) s) (rw fits at ran)
          (record c { filename = null; flag = 1 }, rw (h, append-nil s.stored) refl, (refl, refl))
    | inr big ↦ absurd (ground arith)
  ]
  ready_row-Goes row (fresh fd) c joined s r here h ran = absurd (ground arith)
  ready_row-Goes row (fresh fd) c (storing file) s r here h ran = absurd (ground arith)
  ready_row-Goes row (client fd a) c idle s r here h ran = absurd (ground arith)
  ready_row-Goes row (client fd a) c joined s r here h ran =
      let (file, opens, made) = >>=-eq-some (opened a.filename) _ ran in
      subst-some (Goes row (ready_row opened row (client fd a) c s) s) made (
        record {
          flag = 0;
          filename_len = a.filename_len;
          filename = block a.filename;
          fp = opened a.filename;
        },
        rw (h.1, append-nil s.stored) refl,
        ((a.filename, refl), refl, opens),
      )
  ready_row-Goes row (client fd a) c (storing file) s r here h ran =
      rw h.1 (read_data-Goes row file c a.data_read s r here h ran)

  dir_event-IsRefined :
      (e : Ready) (s : Upload) (a b : Clients)
      → IsRefined s a
      → event opened e a ≡ some b
      → (t : Upload) × (dir_event opened e s ≡ some t) × IsRefined t b
  unfolding dir_event
  dir_event-IsRefined e s a b h ran =
      let fd = fd_of opened e in
      let (r, stepped, made) = >>=-eq-some (step opened (a.phase fd) e) _ ran in
      let (c, here) =
        row_of_step e (get_elem? s.clnt_array fd) (a.phase fd) r
          (λ k. get_elem?-of_lt s.clnt_array fd (omega (arith, h.rows))) (h.stands fd) stepped in
      let (c', went, new) =
        ready_row-Goes fd e c (a.phase fd) s r here
          (subst (λ o. Stands o (a.phase fd)) here (h.stands fd)) stepped in
      let t : Upload = record { clnt_array = set s.clnt_array fd c'; stored = s.stored ++ r.1 } in
      (
        t,
        rw here went,
        subst-some (IsRefined t) made (record {
          rows = length-set s.clnt_array fd c' ∙ h.rows;
          stands =
              set-Stands s.clnt_array a.phase fd c' r.0 (get_elem?-lt s.clnt_array fd here) new
                h.stands;
          stored = ap (◌++ r.1) h.stored;
        }),
      )

  -- If the rows stand for the clients, and every client keeps to the protocol, connecting with a
  -- descriptor below MAX_USER, then sending a name that can be opened, then data and the end of its
  -- stream, with its events among those of the others in any order, then the server handles them
  -- all, its rows stand for the clients afterwards, and its writes are each client's data to that
  -- client's file, in the order of the events.
  pub run_dir-IsRefined :
      (es : List Ready) (s : Upload) (a b : Clients)
      → IsRefined s a
      → run_clients opened es a ≡ some b
      → (t : Upload) × (run_dir opened es s ≡ some t) × IsRefined t b
  unfolding run_dir run_clients
  run_dir-IsRefined [] s a b h ran = (s, refl, subst-some (IsRefined s) ran h)
  run_dir-IsRefined (e ∷ es) s a b h ran =
      let (a', first, rest) = >>=-eq-some (event opened e a) (run_clients opened es) ran in
      let (s', went, h') = dir_event-IsRefined e s a a' h first in
      let (t, all, h'') = run_dir-IsRefined es s' a' b h' rest in (t, rw went all, h'')

-- The server as it starts: the rows are cleared.
abbrev pub no_row : ClntFile
no_row = record { flag = 0; filename_len = 0; filename = null; fp = none }

abbrev pub no_upload : Upload
no_upload = record { clnt_array = replicate max_user no_row; stored = [] }

replicate-idle : (n fd : ℕ) → Stands (get_elem? (replicate n no_row) fd) idle
replicate-idle zero fd = tt
replicate-idle (suc n) zero = refl
replicate-idle (suc n) (suc fd) = replicate-idle n fd

pub no_upload-IsRefined : IsRefined no_upload no_clients
no_upload-IsRefined = record {
  rows = length-replicate max_user no_row;
  stands = λ fd. replicate-idle max_user fd;
  stored = refl;
}
