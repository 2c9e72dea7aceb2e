-- ===== src/Websocket/Tests.antt =====
-- The frames of lab07/simple_ws_client.c at concrete texts.
use io_t_lab.Common.{
  ◌≡◌, refl, List, ℕ, [], ◌∷◌, ◌++◌, none, some, ◌-◌, arith, replicate, take, drop, length, inl,
  ◌<◌, ◌≤◌,
}
use io_t_lab.Websocket.{buffer_size, Key, key_bytes, text_frame, read_reply}
use io_t_lab.Websocket.Frames.{text_frame-overrun}
use io_t_lab.Websocket.Session.{request, run_session}
use io_t_lab.Websocket.Session.Echoed.{IsSession, run_session-echo_frame, run_session-unanswered}
use io_t_lab.Websocket.Replies.{echo_frame, read_reply-echo_frame}

abbrev key : Key
key = record { k0 = 17; k1 = 34; k2 = 51; k3 = 68 }

abbrev hello : List ℕ
hello = 104 ∷ 101 ∷ 108 ∷ 108 ∷ 111 ∷ []

-- A byte that equals the key's ends the copy: the rest of the text is sent as NULs.
text_frame-cut :
    text_frame key (104 ∷ 34 ∷ 108 ∷ []) ≡ some (0x81 ∷ 131 ∷ key_bytes key ++ 121 ∷ 0 ∷ 0 ∷ 0 ∷ [])
unfolding text_frame
text_frame-cut = refl

text_frame-overrun_example : text_frame key (replicate 126 65) ≡ none
text_frame-overrun_example =
    text_frame-overrun key (replicate 126 65) (omega arith) (omega arith) (omega arith)

hello_fills : length (echo_frame hello ++ replicate 1017 0) ≡ buffer_size
unfolding echo_frame
hello_fills = refl

read_reply-echo_frame_example : read_reply (echo_frame hello ++ replicate 1017 0) ≡ some (5, hello)
read_reply-echo_frame_example =
    read_reply-echo_frame hello (replicate 1017 0) (omega arith) hello_fills

abbrev close_key : Key
close_key = record { k0 = 85; k1 = 86; k2 = 87; k3 = 88 }

abbrev host : List ℕ
host = 49 ∷ 46 ∷ 50 ∷ []

-- GET 1.2 HTTP, with no slash before the path.
request_start :
    take 12 (request host 8080) ≡ 71 ∷ 69 ∷ 84 ∷ 32 ∷ host ++ 32 ∷ 72 ∷ 84 ∷ 84 ∷ 80 ∷ []
unfolding request
request_start = refl

-- The last lines are \r\n\r\n, after : and the port.
request_end :
    (drop (length (request host 8080) - 6) (request host 8080) ≡ 49 ∷ 51 ∷ 13 ∷ 10 ∷ 13 ∷ 10 ∷ [])
    × (take 7 (drop 26 (request host 8080)) ≡ 50 ∷ 58 ∷ 56 ∷ 48 ∷ 56 ∷ 48 ∷ 13 ∷ [])
unfolding request
request_end = (refl, refl)

abbrev unset : List ℕ
unset = replicate 1024 0

abbrev answer : List ℕ
answer = 72 ∷ 84 ∷ replicate 90 84

request_fits : length (request host 8080) < buffer_size
unfolding request
request_fits = omega arith

hello_fits : length (echo_frame hello ++ 0 ∷ []) ≤ buffer_size
unfolding echo_frame
hello_fits = omega arith

run_session-echo_frame_example :
    IsSession host 8080 hello close_key
      (run_session host 8080 hello key close_key
        (some answer)
        (some (echo_frame hello ++ 0 ∷ []))
        unset)
      (5, hello)
run_session-echo_frame_example =
    run_session-echo_frame host 8080 hello key close_key answer unset request_fits (omega arith)
      refl (omega arith) (omega arith) (omega arith) (omega arith) (0 ∷ []) (omega arith) hello_fits

run_session-unanswered_example :
    IsSession host 8080 hello close_key
      (run_session host 8080 hello key close_key (some answer) none unset)
      (84, replicate 84 84)
run_session-unanswered_example =
    run_session-unanswered host 8080 hello key close_key answer unset request_fits (omega arith)
      refl (omega arith) (omega arith) (omega arith) (omega arith) none (replicate 90 84) (inl refl)
      refl (omega arith) (omega arith)
