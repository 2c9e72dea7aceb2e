-- ===== src/Stream/Tests.antt =====
-- The streams of lab06 at concrete bytes.
use io_t_lab.Common.{ℕ, ◌≡◌, [], ◌++◌, some, arith, replicate}
use io_t_lab.Stream.{OutputMemoryStream, new_stream, write}
use io_t_lab.Stream.Output.{Holds, new_stream-Holds, write-Holds}

abbrev noise : ℕ → ℕ
noise i = 170

write-Holds_example :
    (t : OutputMemoryStream) × (write noise (replicate 40 7) (new_stream noise) ≡ some t)
    × Holds noise ([] ++ replicate 40 7) t
    × (t.bit_head ≡ (new_stream noise).bit_head)
write-Holds_example =
    write-Holds noise (replicate 40 7) [] (new_stream noise) (new_stream-Holds noise) (omega arith)
