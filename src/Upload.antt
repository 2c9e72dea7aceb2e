-- ===== src/Upload.antt =====
-- lab05/lab05_src/fileup_serv_dir/fileup_serv.c and fileup_serv.c beside it, which keep one row for
-- each upload: the first finds it by the client's descriptor, the second by the event's position.
-- `none` is undefined behaviour.
pub mod Rows
pub mod Client
pub mod Protocol
pub mod Refined
pub mod Written
pub mod Alone
pub mod Interleaved
mod Tests
use io_t_lab.Common.{
  ℕ, zero, suc, List, [], ◌∷◌, ◌++◌, Option, none, some, ◌>>=◌, ◌==◌, get_elem?, set, if◌then◌else◌,
}
use io_t_lab.Echo.{Reading, got, eof, failed}

-- `filename`: NULL, a block from `malloc`, or a block that was freed.
pub data Name : Type 0 where
  null freed : Name
  block : List ℕ → Name

-- `clntfile`; `fp` is the name of the open file.
pub record ClntFile : Type 0 where
  pub flag : ℕ
  pub filename_len : ℕ
  pub filename : Name
  pub fp : Option (List ℕ)

-- A `fwrite`.
pub record Stored : Type 0 where
  pub file : List ℕ
  pub bytes : List ℕ

pub record Upload : Type 0 where
  pub clnt_array : List ClntFile
  pub stored : List Stored

-- What the reads of a client's event return, where they are made: the length, the name, and up to
-- BUF_SIZE bytes.
pub record Arrival : Type 0 where
  pub filename_len : ℕ
  pub filename : List ℕ
  pub data_read : Reading

pub data Ready : Type 0 where
  fresh : ℕ → Ready
  client : ℕ → Arrival → Ready

abbrev pub free : Name → Option Name
free null = some null
free freed = none
free (block b) = some freed

abbrev pub put : ℕ → ClntFile → Upload → Upload
put row c s = record s { clnt_array = set s.clnt_array row c }

-- Lines 80-83.
abbrev pub open_row : ℕ → ClntFile → Upload → Option Upload
open_row row c s =
    free c.filename >>= λ name. some (put row (record c { filename = name; flag = 1 }) s)

module _ (opened : List ℕ → Option (List ℕ)) where
  -- Lines 89-95. `opened` is what `fopen` makes of the block, which has no NUL at its end.
  abbrev pub read_header : ℕ → ClntFile → Arrival → Upload → Upload
  read_header row c a s =
      put row
        (record {
          flag = 0;
          filename_len = a.filename_len;
          filename = block a.filename;
          fp = opened a.filename;
        })
        s

-- Lines 98-111. A file that is not open is NULL.
abbrev pub read_data : ℕ → ClntFile → Reading → Upload → Option Upload
read_data row c (got bytes) s = c.fp >>= λ file.
    some (record s { stored = s.stored ++ record { file = file; bytes = bytes } ∷ [] })
read_data row c failed s = none
read_data row c eof s = do
  file ← c.fp
  name ← free c.filename
  some (put row (record { flag = 0; filename_len = 0; filename = null; fp = none }) s)

module _ (opened : List ℕ → Option (List ℕ)) where
  abbrev pub ready_row : ℕ → Ready → ClntFile → Upload → Option Upload
  ready_row row (fresh fd) c s = open_row row c s
  ready_row row (client fd a) c s =
      if c.flag == 0 then read_data row c a.data_read s else some (read_header opened row c a s)

  abbrev pub fd_of : Ready → ℕ
  fd_of (fresh fd) = fd
  fd_of (client fd a) = fd

  -- Lines 72-113 of fileup_serv_dir/fileup_serv.c.
  unfoldable pub dir_event : Ready → Upload → Option Upload
  dir_event e s = get_elem? s.clnt_array (fd_of e) >>= λ c. ready_row (fd_of e) e c s

  -- The loops of lines 60-115.
  unfoldable pub run_dir : List Ready → Upload → Option Upload
  unfolding dir_event
  run_dir [] s = some s
  run_dir (e ∷ es) s = dir_event e s >>= run_dir es

  -- Lines 73-116 of fileup_serv.c: the row is the event's position among those of one `epoll_wait`.
  unfoldable pub serv_events : ℕ → List Ready → Upload → Option Upload
  serv_events i [] s = some s
  serv_events i (e ∷ es) s =
      get_elem? s.clnt_array i >>= λ c. ready_row i e c s >>= serv_events (suc i) es

  -- Lines 63-117.
  unfoldable pub run_serv : List (List Ready) → Upload → Option Upload
  unfolding serv_events
  run_serv [] s = some s
  run_serv (es ∷ rounds) s = serv_events 0 es s >>= run_serv rounds
