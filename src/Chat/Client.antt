-- ===== src/Chat/Client.antt =====
-- lab05/lab05_src/chat_clnt.c: the thread that sends the lines typed, and the thread that prints
-- what arrives. `none` is a write past the end of a buffer.
pub mod Bounds
pub mod Shown
use io_t_lab.Common.{
  is_quit, ℕ, zero, suc, ◌+◌, List, [], ◌∷◌, ◌++◌, Option, none, some, Bool, true, false, ltb,
  if◌then◌else◌, ◌>>=◌, length, c_string, fgets,
}
use io_t_lab.Echo.{Reading, got, eof, failed}

-- BUF_SIZE and NAME_SIZE
abbrev pub buf_size : ℕ
buf_size = 100

abbrev pub name_size : ℕ
name_size = 20

-- `sprintf` into a block of `size` bytes, with the NUL behind the text.
abbrev pub sprintf : ℕ → List ℕ → Option (List ℕ)
sprintf size text = if ltb (length text) size then some text else none

-- Line 30: "[%s]".
abbrev pub make_name : List ℕ → Option (List ℕ)
make_name arg = sprintf name_size (91 ∷ arg ++ 93 ∷ [])

-- Line 55: what `msg` holds afterwards, up to its NUL, and the input left. At the end of the input
-- `fgets` leaves `msg` as it is.
abbrev pub read_line : List ℕ → List ℕ → List ℕ × List ℕ
read_line msg [] = (msg, [])
read_line msg (b ∷ bs) = let line = fgets buf_size (b ∷ bs) in (c_string line.0, line.1)

-- Line 61: "%s %s".
abbrev pub make_message : List ℕ → List ℕ → Option (List ℕ)
make_message name msg = sprintf (name_size + buf_size) (name ++ 32 ∷ msg)

-- What is written to the socket, and whether `exit` has been called.
pub record Typed : Type 0 where
  pub messages : List (List ℕ)
  pub exited : Bool

-- `send_msg` for a number of rounds.
unfoldable pub send_rounds : ℕ → List ℕ → List ℕ → List ℕ → Option Typed
send_rounds zero name msg input = some (record { messages = []; exited = false })
send_rounds (suc n) name msg input =
    let line = read_line msg input in
    if is_quit line.0 then some (record { messages = []; exited = true }) else do
      text ← make_message name line.0
      rest ← send_rounds n name line.0 line.1
      some (record rest { messages = text ∷ rest.messages })

-- The client with the argument that names it, and its input; `msg` is a global.
unfoldable pub run_sender : ℕ → List ℕ → List ℕ → Option Typed
run_sender n arg input = do name ← make_name arg; send_rounds n name [] input

-- `recv_msg`: the texts that `fputs` prints. The end of the stream prints an empty text, and the
-- loop goes on.
unfoldable pub recv_msg : List Reading → List (List ℕ)
recv_msg [] = []
recv_msg (got bytes ∷ rs) = c_string bytes ∷ recv_msg rs
recv_msg (eof ∷ rs) = [] ∷ recv_msg rs
recv_msg (failed ∷ rs) = []
