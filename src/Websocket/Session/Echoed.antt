-- ===== src/Websocket/Session/Echoed.antt =====
-- A session of lab07/simple_ws_client.c with a server that echoes by RFC 6455, and with one that
-- does not answer.
use io_t_lab.Common.{
  ℕ, zero, suc, ◌<◌, ◌≤◌, ◌⊎◌, inl, inr, ◌≡◌, ◌∙◌, refl, ap, sym, arith, List, [], ◌∷◌, ◌++◌,
  Option, none, some, if◌then◌else◌, ltb, length, take, drop, set, IsText, take-eq_of_le,
  length-append, length-drop, length-set, leb, true, lt→ltb, c_string-IsText, c_string, All-take,
}
use mathlib.Core.Path.{subst}
use mathlib.Core.List.{append_assoc}
use io_t_lab.Net.Memory.{IsBytes, take-set_above}
use io_t_lab.Websocket.{
  buffer_size, reply_len, Key, key_bytes, mask, text_frame, close_frame, read_reply,
}
use io_t_lab.Websocket.Frames.{decode, text_frame-decode, close_frame-unreadable}
use io_t_lab.Websocket.Replies.{echo_frame, read_reply-echo_frame}
use io_t_lab.Websocket.Session.{
  request, print_into, receive_into, receive_handshake, receive_echo, Session, run_session,
}

print_into-fits :
    (bytes buffer : List ℕ)
    → length bytes ≤ buffer_size
    → print_into bytes buffer ≡ some (bytes ++ drop (length bytes) buffer)
unfolding print_into
print_into-fits bytes buffer h = ground arith

receive_into-fits :
    (bytes buffer : List ℕ)
    → length bytes ≤ buffer_size
    → receive_into bytes buffer ≡ bytes ++ drop (length bytes) buffer
receive_into-fits bytes buffer h =
    ap (λ got. got ++ drop (length got) buffer) (take-eq_of_le buffer_size bytes h)

receive_handshake-fits :
    (bytes buffer : List ℕ)
    → length bytes < buffer_size
    → receive_handshake (some bytes) buffer
      ≡ some (set (bytes ++ drop (length bytes) buffer) (length bytes) 0)
unfolding receive_handshake
receive_handshake-fits bytes buffer h =
    ap
      (λ got.
        if ltb (length got) buffer_size
        then some (set (got ++ drop (length got) buffer) (length got) 0)
        else none)
      (take-eq_of_le buffer_size bytes (omega arith))
    ∙ rw (lt→ltb (length bytes) buffer_size h) refl

receive_echo-silent :
    (echo : Option (List ℕ)) (buffer : List ℕ)
    → (echo ≡ none) ⊎ (echo ≡ some [])
    → receive_echo echo buffer ≡ buffer
unfolding receive_echo
receive_echo-silent echo buffer (inl e) = rw e refl
receive_echo-silent echo buffer (inr e) = rw e refl

take-append_of_le : (n : ℕ) (xs ys : List ℕ) → n ≤ length xs → take n (xs ++ ys) ≡ take n xs
take-append_of_le zero xs ys h = refl
take-append_of_le (suc n) [] ys h = absurd (omega arith)
take-append_of_le (suc n) (x ∷ xs) ys h = ap (◌∷◌ x) (take-append_of_le n xs ys (omega arith))

-- An answer that starts with HT, and its NUL, read as a frame: T is a length of 84.
read_reply-http :
    (text behind : List ℕ)
    → IsText text
    → 84 ≤ length text
    → read_reply (72 ∷ 84 ∷ set (text ++ behind) (length text) 0) ≡ some (84, take 84 text)
unfolding read_reply reply_len
read_reply-http text behind h long =
    let there : leb 84 (length (set (text ++ behind) (length text) 0)) ≡ true =
      ground (arith, length-set (text ++ behind) (length text) 0, length-append text behind) in
    rw there (
      ap (λ t. some (84, c_string t))
        (take-set_above 84 (text ++ behind) (length text) 0 long
          ∙ take-append_of_le 84 text behind long)
      ∙ ap (λ t. some (84, t)) (c_string-IsText (take 84 text) (All-take (λ b. 0 < b) 84 text h)))

run_session-runs :
    (host : List ℕ) (port : ℕ) (message : List ℕ) (key close_key : Key)
    (handshake echo : Option (List ℕ)) (unset : List ℕ) {asked answered frame : List ℕ}
    {printed : ℕ × List ℕ}
    → print_into (request host port ++ 0 ∷ []) unset ≡ some asked
    → receive_handshake handshake asked ≡ some answered
    → text_frame key message ≡ some frame
    → read_reply (receive_echo echo answered) ≡ some printed
    → run_session host port message key close_key handshake echo unset
      ≡ some (record {
        sent = request host port ∷ frame ∷ close_frame close_key ∷ [];
        printed = printed;
      })
unfolding run_session
run_session-runs host port message key close_key handshake echo unset a b c d =
    rw a (rw b (rw c (rw d refl)))

-- What `send` was given, what a server reads in it by RFC 6455 behind the request, and what was
-- printed. The stream holds the message's frame, and then no frame: a NUL stands before the close
-- frame.
abbrev pub IsSession : List ℕ → ℕ → List ℕ → Key → Option Session → ℕ × List ℕ → Type 0
IsSession host port message close_key result printed =
    let closing = close_frame close_key in
    (frame : List ℕ) × (result
      ≡ some (record { sent = request host port ∷ frame ∷ closing ∷ []; printed = printed }))
    × (decode (frame ++ closing)
        ≡ some (record { first = 0x81; payload = message; behind = 0 ∷ closing }))
    × (decode (0 ∷ closing) ≡ none)

module _ (host : List ℕ) (port : ℕ) (message : List ℕ) (key close_key : Key) (hs unset : List ℕ)
    (asks : length (request host port) < buffer_size) (answers : length hs < buffer_size)
    (whole : length unset ≡ buffer_size) (key_ok : IsBytes (key_bytes key))
    (bytes : IsBytes message) (short : length message < 126)
    (masked : IsText (mask key message)) where
  asked : List ℕ
  asked = (request host port ++ 0 ∷ []) ++ drop (length (request host port ++ 0 ∷ [])) unset

  -- The buffer behind line 67.
  answered : List ℕ
  unfolding asked
  answered = set (hs ++ drop (length hs) asked) (length hs) 0

  run_session-IsSession :
      (echo : Option (List ℕ)) (printed : ℕ × List ℕ)
      → read_reply (receive_echo echo answered) ≡ some printed
      → IsSession host port message close_key
          (run_session host port message key close_key (some hs) echo unset)
          printed
  unfolding answered asked
  run_session-IsSession echo printed read =
      let (frame, made, decoded) =
        text_frame-decode key message (close_frame close_key) key_ok bytes short masked in
      (
        frame,
        run_session-runs host port message key close_key (some hs) echo unset
            (print_into-fits (request host port ++ 0 ∷ []) unset
              (omega (arith, length-append (request host port) (0 ∷ []))))
            (receive_handshake-fits hs _ answers) made read,
        decoded,
        close_frame-unreadable close_key,
      )

  length-answered : length answered ≡ buffer_size
  unfolding answered asked
  length-answered =
      let request_nul = request host port ++ 0 ∷ [] in
      let filled = request_nul ++ drop (length request_nul) unset in
      omega (
        arith,
        length-set (hs ++ drop (length hs) filled) (length hs) 0,
        length-append hs (drop (length hs) filled),
        length-drop (length hs) filled,
        length-append request_nul (drop (length request_nul) unset),
        length-drop (length request_nul) unset,
        length-append (request host port) (0 ∷ []),
      )

  -- Let the request and the answer to it have fewer than 1024 bytes, and the message fewer than 126
  -- bytes, none of them equal to the key's at its place. If the message has no NUL, and a server that
  -- echoes by RFC 6455 sends its echo, and whatever follows it, in at most 1024 bytes that one `recv`
  -- brings, the client sends the request, a frame that a server decodes to the message, and a close
  -- frame that a server cannot decode behind the NUL that stands before it, and it prints the
  -- message's length and the message.
  pub run_session-echo_frame :
      (rest : List ℕ)
      → IsText message
      → length (echo_frame message ++ rest) ≤ buffer_size
      → IsSession host port message close_key
          (run_session host port message key close_key
            (some hs)
            (some (echo_frame message ++ rest))
            unset)
          (length message, message)
  run_session-echo_frame rest text fits =
      run_session-IsSession (some (echo_frame message ++ rest)) (length message, message)
        (ap read_reply read
          ∙ read_reply-echo_frame message (rest ++ old) text (ap length (sym joined) ∙ filled))
    where
      echo : List ℕ
      echo = echo_frame message ++ rest

      old : List ℕ
      old = drop (length echo) answered

      joined : echo ++ old ≡ echo_frame message ++ (rest ++ old)
      joined = append_assoc (echo_frame message) rest old

      read : receive_echo (some echo) answered ≡ echo_frame message ++ (rest ++ old)
      read = unfold receive_echo in (receive_into-fits echo answered fits) ∙ joined

      filled : length (echo ++ old) ≡ buffer_size
      filled =
          omega (
            arith,
            fits,
            length-append echo old,
            length-drop (length echo) answered,
            length-answered,
          )

  -- Let the request and the answer to it have fewer than 1024 bytes, and the message fewer than 126
  -- bytes, none of them equal to the key's at its place. If the answer starts with HT and has at
  -- least 86 bytes and no NUL, and the server closes or `recv` fails after it, the client sends what
  -- it sends to a server that answers, and prints 84 bytes of the answer to its request as the
  -- server's message.
  pub run_session-unanswered :
      (echo : Option (List ℕ)) (text : List ℕ)
      → (echo ≡ none) ⊎ (echo ≡ some [])
      → hs ≡ 72 ∷ 84 ∷ text
      → IsText text
      → 84 ≤ length text
      → IsSession host port message close_key
          (run_session host port message key close_key (some hs) echo unset)
          (84, take 84 text)
  unfolding answered
  run_session-unanswered echo text silent e h long =
      run_session-IsSession echo (84, take 84 text)
        (ap read_reply (receive_echo-silent echo answered silent) ∙ http_text)
    where
      http_text : read_reply answered ≡ some (84, take 84 text)
      http_text =
          subst
            (λ xs.
              read_reply (set (xs ++ drop (length xs) asked) (length xs) 0)
              ≡ some (84, take 84 text))
            (sym e) (read_reply-http text _ h long)
