-- ===== src/Websocket/Replies.antt =====
-- The echo of a text by a server, RFC 6455, 5.1: it is not masked. What lab07/simple_ws_client.c
-- makes of it.
use io_t_lab.Common.{
  take-append_self, IsText, c_string-IsText, ℕ, ◌+◌, ◌*◌, ◌/◌, ◌%◌, ◌<◌, ◌≡◌, ◌==◌, false, List, [],
  ◌∷◌, ◌++◌, some, arith, Bool-cases, inl, inr, ltb, if◌then◌else◌, length, length-append,
}
use io_t_lab.Websocket.{buffer_size, reply_len, copy_reply, read_reply}

-- What a server sends for a text of fewer than 65536 bytes.
unfoldable pub echo_frame : List ℕ → List ℕ
echo_frame text =
    let n = length text in
    0x81 ∷ (if ltb n 126 then n ∷ [] else 126 ∷ n / 256 ∷ n % 256 ∷ []) ++ text

reply_len-small : (b : ℕ) → b < 128 → reply_len b ≡ b
unfolding reply_len
reply_len-small b h = ground arith

copy_reply-text :
    (text rest : List ℕ)
    → IsText text
    → length text < 65536
    → copy_reply (length text) (text ++ rest) ≡ some (length text, text)
copy_reply-text text rest h small =
    rw (take-append_self text rest, c_string-IsText text h)
      (ground (arith, length-append text rest))

read_reply-short :
    (text rest : List ℕ)
    → IsText text
    → length text < 126
    → read_reply (0x81 ∷ length text ∷ text ++ rest) ≡ some (length text, text)
unfolding read_reply
read_reply-short text rest h small =
    let copied = copy_reply-text text rest h (omega arith) in
    let no_short_mark : (length text == 126) ≡ false = ground arith in
    let no_long_mark : (length text == 127) ≡ false = ground arith in
    rw (reply_len-small (length text) (omega arith), no_short_mark, no_long_mark) copied

read_reply-medium :
    (text rest : List ℕ)
    → IsText text
    → length text < 65536
    → read_reply (0x81 ∷ 126 ∷ length text / 256 ∷ length text % 256 ∷ text ++ rest)
      ≡ some (length text, text)
unfolding read_reply reply_len
read_reply-medium text rest h small =
    let joined : length text / 256 * 256 + length text % 256 ≡ length text = omega arith in
    rw joined (copy_reply-text text rest h small)

length-echo_frame : (text : List ℕ) → length text < length (echo_frame text)
unfolding echo_frame
length-echo_frame text = ground arith

-- When `buffer`, with its 1024 bytes, starts with the unmasked frame of a text without a NUL, the
-- client reads the text's length and the text, whatever is behind the frame.
pub read_reply-echo_frame :
    (text rest : List ℕ)
    → IsText text
    → length (echo_frame text ++ rest) ≡ buffer_size
    → read_reply (echo_frame text ++ rest) ≡ some (length text, text)
unfolding echo_frame
read_reply-echo_frame text rest h whole =
    let small : length text < 65536 =
      omega (arith, whole, length-echo_frame text, length-append (echo_frame text) rest) in
    elim (Bool-cases (ltb (length text) 126)) [
      | inl lt ↦ rw lt (read_reply-short text rest h (ground arith))
      | inr ge ↦ rw ge (read_reply-medium text rest h small)
    ]
