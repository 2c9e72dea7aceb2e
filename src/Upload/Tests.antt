-- ===== src/Upload/Tests.antt =====
-- The upload servers of lab05/lab05_src at concrete events.
mod Interleaved
use io_t_lab.Common.{
  ℕ, ◌≡◌, refl, List, [], ◌∷◌, ◌++◌, map, none, some, arith, get_elem?, length, replicate, concat,
  Ensures,
}
use io_t_lab.Echo.{got, eof}
use io_t_lab.Upload.{
  Name, null, ClntFile, Stored, Upload, Arrival, Ready, fresh, client, run_dir, run_serv,
}
use io_t_lab.Raw.{bytes32}
use io_t_lab.Upload.Client.{send_file, send_file-concat}
use io_t_lab.Upload.Rows.{run_dir-kept, run_dir-stored, stored_in, data_event}

abbrev empty_row : ClntFile
empty_row = record { flag = 0; filename_len = 0; filename = null; fp = none }

abbrev idle : Upload
idle = record { clnt_array = replicate 100 empty_row; stored = [] }

abbrev header : List ℕ → Arrival
header name = record { filename_len = length name; filename = name; data_read = eof }

abbrev chunk_of : List ℕ → Arrival
chunk_of bytes = record { filename_len = 0; filename = []; data_read = got bytes }

-- The server that takes the event's position for the row: bytes of client 6, which is first in its
-- round, go to the file that client 5 opened.
mixed :
    run_serv some
      ((fresh 5 ∷ [])
        ∷ (client 5 (header (65 ∷ [])) ∷ [])
        ∷ (client 6 (chunk_of (1 ∷ 2 ∷ [])) ∷ [])
        ∷ [])
      idle
    ≡ some (record {
      clnt_array =
          record {
            flag = 0;
            filename_len = 1;
            filename = io_t_lab.Upload.block (65 ∷ []);
            fp = some (65 ∷ []);
          }
          ∷ replicate 99 empty_row;
      stored = record { file = 65 ∷ []; bytes = 1 ∷ 2 ∷ [] } ∷ [];
    })
unfolding run_serv
mixed = refl

send_file-concat_example :
    (chunks : List (List ℕ)) × (send_file (65 ∷ []) (replicate 1500 7) ≡ some chunks)
    × (concat chunks ≡ bytes32 1 ++ (65 ∷ []) ++ replicate 1500 7)
send_file-concat_example = send_file-concat (65 ∷ []) (replicate 1500 7)
