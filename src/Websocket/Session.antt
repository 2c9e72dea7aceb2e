-- ===== src/Websocket/Session.antt =====
-- `main` of lab07/simple_ws_client.c: the handshake, a text, its echo and the close frame.
pub mod Echoed
use Prim.Native.String.{String}
use Prim.Native.String
use Prim.Native.Char.{code}
use io_t_lab.Common.{
  ℕ, zero, suc, ◌+◌, ◌/◌, ◌%◌, ◌<◌, List, [], ◌∷◌, ◌++◌, Option, none, some, ◌>>=◌, ltb, leb,
  if◌then◌else◌, length, take, drop, set,
}
use io_t_lab.Websocket.{Key, text_frame, close_frame, buffer_size, read_reply}

abbrev codes : String → List ℕ
codes String.[] = []
codes (String.◌∷◌ c s) = code c ∷ codes s

-- `%d` of a number with at most so many digits.
abbrev decimal : ℕ → ℕ → List ℕ
decimal zero n = []
decimal (suc digits) n =
    let rest = decimal digits (n / 10) in
    if ltb n 10 then (48 + n) ∷ [] else rest ++ (48 + n % 10) ∷ []

-- Lines 55-62, for a port of at most five digits. The host stands for the path, too.
unfoldable pub request : List ℕ → ℕ → List ℕ
request host port =
    codes "GET "
    ++ host
    ++ codes " HTTP/1.1\r\nHost: "
    ++ host
    ++ codes ":"
    ++ decimal 5 port
    ++ codes "\r\nUpgrade: websocket\r\nConnection: Upgrade\r\nSec-WebSocket-Key: "
    ++ codes "erPKMz5t9vwqkJI+RmHnLw=="
    ++ codes "\r\nSec-WebSocket-Version: 13\r\n\r\n"

-- Bytes written to the start of `buffer`: `sprintf`, which is undefined if they are too many, and
-- `recv`, which stops at its size.
unfoldable pub print_into : List ℕ → List ℕ → Option (List ℕ)
print_into bytes buffer =
    if leb (length bytes) buffer_size then some (bytes ++ drop (length bytes) buffer) else none

abbrev pub receive_into : List ℕ → List ℕ → List ℕ
receive_into bytes buffer = let got = take buffer_size bytes in got ++ drop (length got) buffer

-- What `recv` returns: bytes, [] at the end of the stream, or none for -1. Lines 66-67 store a NUL
-- behind the bytes, or before the buffer.
unfoldable pub receive_handshake : Option (List ℕ) → List ℕ → Option (List ℕ)
receive_handshake none buffer = none
receive_handshake (some bytes) buffer =
    let got = take buffer_size bytes in
    if ltb (length got) buffer_size
    then some (set (receive_into bytes buffer) (length got) 0)
    else none

-- Lines 122-123. The call of `memset` sets no byte: its size and its value are swapped.
unfoldable pub receive_echo : Option (List ℕ) → List ℕ → List ℕ
receive_echo none buffer = buffer
receive_echo (some bytes) buffer = receive_into bytes buffer

-- What `send` was given, and the length and the text printed.
pub record Session : Type 0 where
  pub sent : List (List ℕ)
  pub printed : ℕ × List ℕ

-- Lines 55-172, with the keys drawn and what `buffer` holds at first.
unfoldable pub run_session :
    List ℕ → ℕ → List ℕ → Key → Key → Option (List ℕ) → Option (List ℕ) → List ℕ → Option Session
run_session host port message key close_key handshake echo unset = do
  asked ← print_into (request host port ++ 0 ∷ []) unset
  answered ← receive_handshake handshake asked
  frame ← text_frame key message
  printed ← read_reply (receive_echo echo answered)
  some (record { sent = request host port ∷ frame ∷ close_frame close_key ∷ []; printed = printed })
