-- ===== src/Websocket/Frames.antt =====
-- The text frame of lab07/simple_ws_client.c as a server reads it by RFC 6455, 5.2.
use io_t_lab.Common.{
  take-append_self, drop-append_self, length-append, IsText, c_string-IsText, ℕ, ◌+◌, ◌-◌, ◌%◌, ◌/◌,
  ◌<◌, ◌≤◌, ◌≡◌, refl, sym, List, [], ◌∷◌, ◌++◌, Option, none, some, arith, ltb, leb, if◌then◌else◌,
  take, drop, length, replicate,
}
use mathlib.Core.List.{append_assoc}
use io_t_lab.Net.Memory.{IsBytes}
use io_t_lab.Websocket.{
  Key, key_bytes, mask, frame_len, length_bytes, copy_string, text_frame, close_frame,
}
use io_t_lab.Websocket.Mask.{mask-mask, length-mask, unmask, unmask-mask}

-- A masked frame with a short length, and the bytes behind it.
pub record Frame : Type 0 where
  pub first : ℕ
  pub payload : List ℕ
  pub behind : List ℕ

abbrev unmask_frame : ℕ → ℕ → List ℕ → Option Frame
unmask_frame b n (k0 ∷ k1 ∷ k2 ∷ k3 ∷ rest) =
    if leb n (length rest)
    then some (record {
      first = b;
      payload = unmask (k0 ∷ k1 ∷ k2 ∷ k3 ∷ []) 0 (take n rest);
      behind = drop n rest;
    })
    else none
unmask_frame b n rest = none

unfoldable pub decode : List ℕ → Option Frame
decode (b ∷ l ∷ rest) =
    if leb 128 l then (if ltb (l - 128) 126 then unmask_frame b (l - 128) rest else none) else none
decode bytes = none

-- ---- The text frame.

copy_string-fits :
    (text : List ℕ) (room : ℕ)
    → IsText text
    → length text < room
    → copy_string text room ≡ some (text ++ replicate (room - length text) 0)
unfolding copy_string
copy_string-fits text room h lt = rw (c_string-IsText text h) (ground arith)

copy_string-full :
    (text : List ℕ) (room : ℕ) → IsText text → room ≤ length text → copy_string text room ≡ none
unfolding copy_string
copy_string-full text room h le = rw (c_string-IsText text h) (ground arith)

length_bytes-short : (n : ℕ) → n < 126 → length_bytes n ≡ (128 + n) ∷ []
unfolding length_bytes
length_bytes-short n h = ground arith

frame_len-short : (n : ℕ) → n < 126 → frame_len n ≡ n + 7
unfolding frame_len
frame_len-short n h = ground arith

length_bytes-medium :
    (n : ℕ) → 126 ≤ n → n < 65536 → length_bytes n ≡ 254 ∷ n / 256 % 256 ∷ n % 256 ∷ []
unfolding length_bytes
length_bytes-medium n h l = ground arith

frame_len-medium : (n : ℕ) → 126 ≤ n → n < 65536 → frame_len n ≡ n + 8
unfolding frame_len
frame_len-medium n h l = ground arith

text_frame-short :
    (k : Key) (m : List ℕ)
    → length m < 126
    → IsText (mask k m)
    → text_frame k m ≡ some (0x81 ∷ (128 + length m) ∷ key_bytes k ++ mask k m ++ 0 ∷ [])
unfolding text_frame
text_frame-short k m short text =
    let n = length-mask k m in
    let room : length m + 7 - 6 - length (mask k m) ≡ 1 = omega (arith, n) in
    rw (length_bytes-short (length m) short, frame_len-short (length m) short)
      (rw (copy_string-fits (mask k m) (length m + 7 - 6) text (omega (arith, n)), room) refl)

unmask_frame-append :
    (b : ℕ) (k : Key) (m xs : List ℕ)
    → IsBytes (key_bytes k)
    → IsBytes m
    → unmask_frame b (length m) (key_bytes k ++ mask k m ++ xs)
      ≡ some (record { first = b; payload = m; behind = xs })
unmask_frame-append b k m xs hk hm =
    let whole = take-append_self (mask k m) xs in
    rw
      (
        sym (length-mask k m),
        whole,
        drop-append_self (mask k m) xs,
        unmask-mask k (mask k m),
        mask-mask k m hk hm,
      )
      (ground (arith, length-append (mask k m) xs))

-- The frame of a message of fewer than 126 bytes, none of them equal to the key's byte at its
-- place, decodes to that message; one byte 0 stands between it and what is sent next.
pub text_frame-decode :
    (k : Key) (m rest : List ℕ)
    → IsBytes (key_bytes k)
    → IsBytes m
    → length m < 126
    → IsText (mask k m)
    → (sent : List ℕ) × (text_frame k m ≡ some sent)
      × (decode (sent ++ rest) ≡ some (record { first = 0x81; payload = m; behind = 0 ∷ rest }))
unfolding decode
text_frame-decode k m rest hk hm short text =
    let length_less : 128 + length m - 128 ≡ length m = omega arith in
    (
      _,
      text_frame-short k m short text,
      rw (length_less, append_assoc (mask k m) (0 ∷ []) rest)
          (ground (arith, unmask_frame-append 0x81 k m (0 ∷ rest) hk hm)),
    )

-- A message of 126 to 65535 bytes whose masked bytes have no NUL overruns the buffer of its frame:
-- there is no room for the NUL of `strcpy`.
pub text_frame-overrun :
    (k : Key) (m : List ℕ)
    → 126 ≤ length m
    → length m < 65536
    → IsText (mask k m)
    → text_frame k m ≡ none
unfolding text_frame
text_frame-overrun k m long short text =
    rw (length_bytes-medium (length m) long short, frame_len-medium (length m) long short)
      (rw (copy_string-full (mask k m) (length m + 8 - 8) text (omega (arith, length-mask k m)))
        refl)

-- Behind a byte 0 the close frame is no frame: its first byte reads as a length of 8, and 3 bytes
-- are left behind the four that read as a key.
pub close_frame-unreadable : (k : Key) → decode (0 ∷ close_frame k) ≡ none
unfolding decode close_frame
close_frame-unreadable k = refl
