-- ===== src/Websocket.antt =====
-- lab07/simple_ws_client.c: the frames that the client builds and the reply that it reads. A text
-- is the list of its bytes without the NUL. `none` is a store or a load outside a buffer, or a
-- store to a block that `malloc` refused.
pub mod Mask
pub mod Frames
pub mod Replies
pub mod Session
mod Tests
use Prim.Native.Nat.{bit_xor}
use io_t_lab.Common.{
  ℕ, zero, suc, ◌+◌, ◌-◌, ◌*◌, ◌/◌, ◌%◌, ◌^◌, List, [], ◌∷◌, ◌++◌, Option, none, some, ◌>>=◌, ◌==◌,
  leb, ltb, if◌then◌else◌, get_elem?, get_or, take, drop, length, replicate, c_string, swap16,
}

-- The four bytes of `mask_key`, each `rand() % 256`.
pub record Key : Type 0 where
  pub k0 : ℕ
  pub k1 : ℕ
  pub k2 : ℕ
  pub k3 : ℕ

abbrev pub key_bytes : Key → List ℕ
key_bytes k = k.k0 ∷ k.k1 ∷ k.k2 ∷ k.k3 ∷ []

-- `mask_temp[i%4]` for the successive values of `i`.
abbrev pub turn : Key → Key
turn k = record { k0 = k.k1; k1 = k.k2; k2 = k.k3; k3 = k.k0 }

-- The loop of lines 108-110.
abbrev pub mask : Key → List ℕ → List ℕ
mask k [] = []
mask k (b ∷ bs) = bit_xor k.k0 b ∷ mask (turn k) bs

-- Line 78.
pub frame_len : ℕ → ℕ
frame_len n = 2 + (if ltb n 126 then 1 else if ltb n 65536 then 2 else 8) + 4 + n

-- Lines 82-100, for `htons` of a length of any width.
pub length_bytes : ℕ → List ℕ
length_bytes n =
    if ltb n 126
    then (128 + n) ∷ []
    else if ltb n 65536
    then (128 + 126) ∷ n / 256 % 256 ∷ n % 256 ∷ []
    else (128 + 127) ∷ n / 256 % 256 ∷ n % 256 ∷ replicate 6 0

-- `strcpy` into what is left of the zeroed buffer: the text, its NUL, and the zeros behind.
pub copy_string : List ℕ → ℕ → Option (List ℕ)
copy_string text room =
    if ltb (length (c_string text)) room
    then some (c_string text ++ replicate (room - length (c_string text)) 0)
    else none

-- Lines 77-115: what `send` is given.
unfoldable pub text_frame : Key → List ℕ → Option (List ℕ)
unfolding frame_len length_bytes copy_string
text_frame k message =
    let n = length message in
    let header = 0x81 ∷ length_bytes n ++ key_bytes k in
    copy_string (mask k message) (frame_len n - length header) >>= λ body. some (header ++ body)

-- Lines 148-162, with CLOSE_CODE 1000 in network order.
unfoldable pub close_frame : Key → List ℕ
close_frame k = 0x88 ∷ 0x82 ∷ key_bytes k ++ mask k (1000 / 256 ∷ 1000 % 256 ∷ [])

-- Line 129: a `char` of 128 or more is negative, and becomes a huge `size_t`.
pub reply_len : ℕ → ℕ
reply_len b = if leb 128 b then 2 ^ 64 + b - 384 else b

-- The size of `buffer`.
abbrev pub buffer_size : ℕ
buffer_size = 1024

-- Lines 139-142: the length that is printed and the text, for `iterator` at these bytes of `buffer`.
-- `malloc` fails for a length that was negative. `strncpy` stops at a NUL, or else reads all the
-- bytes of the length, past the end of `buffer` if they are not there.
abbrev pub copy_reply : ℕ → List ℕ → Option (ℕ × List ℕ)
copy_reply n src =
    if leb (2 ^ 63) n
    then none
    else if leb n (length src)
    then some (n, c_string (take n src))
    else if ltb (length (c_string src)) (length src)
    then some (n, c_string src)
    else none

-- Lines 125-142, for `buffer` with all its bytes. After the mark 127 the length stays 127.
unfoldable pub read_reply : List ℕ → Option (ℕ × List ℕ)
unfolding reply_len
read_reply buf = do
  b ← get_elem? buf 1
  let n = reply_len b
  let wide = get_or buf 2 0 * 256 + get_or buf 3 0
  if n == 126
      then copy_reply wide (drop 4 buf)
      else if n == 127
      then copy_reply n (drop 10 buf)
      else copy_reply n (drop 2 buf)
