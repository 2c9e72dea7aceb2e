-- ===== src/Chat/Client/Bounds.antt =====
-- Which names lab05/lab05_src/chat_clnt.c has room for.
use io_t_lab.Common.{
  is_quit, ℕ, zero, suc, ◌+◌, ◌<◌, ◌≤◌, ◌≡◌, ◌↔◌, refl, List, [], ◌∷◌, ◌++◌, some, arith, length,
  length-append, c_string, fgets, Returns, Returns->>=, Returns-if, Bool-cases, inl, inr, ltb,
  replicate, false, ltb→lt, >>=-eq-some,
}
use io_t_lab.Chat.Client.{
  buf_size, name_size, sprintf, make_name, read_line, make_message, send_rounds, run_sender,
}

length-c_string : (bs : List ℕ) → length (c_string bs) ≤ length bs
length-c_string [] = omega arith
length-c_string (b ∷ bs) = ground (arith, length-c_string bs)

length-fgets : (n : ℕ) (input : List ℕ) → length (fgets (suc n) input).0 ≤ n
length-fgets zero input = omega arith
length-fgets (suc n) [] = omega arith
length-fgets (suc n) (b ∷ bs) = ground (arith, length-fgets n bs)

length-line : (n : ℕ) (input : List ℕ) → length (c_string (fgets (suc n) input).0) < suc n
length-line n input = omega (arith, length-c_string (fgets (suc n) input).0, length-fgets n input)

length-read_line :
    (msg input : List ℕ) → length msg < buf_size → length (read_line msg input).0 < buf_size
length-read_line msg [] h = h
length-read_line msg (b ∷ bs) h = length-line 99 (b ∷ bs)

sprintf-Returns_iff :
    (size : ℕ) (text : List ℕ) → Returns (sprintf size text) ↔ (length text < size)
sprintf-Returns_iff size text = elim (Bool-cases (ltb (length text) size)) [
  | inl fits ↦ (λ _. ltb→lt (length text) size fits, λ _. rw fits (text, refl))
  | inr over ↦ (λ r. absurd (ground arith), λ h. absurd (ground arith))
]

pub sprintf-text :
    (size : ℕ) (text : List ℕ) {out : List ℕ}
    → sprintf size text ≡ some out
    → (length text < size) × (out ≡ text)
sprintf-text size text e = elim (Bool-cases (ltb (length text) size)) [
  | inl fits ↦ (ltb→lt (length text) size fits, ground arith)
  | inr over ↦ absurd (ground arith)
]

length-bracketed : (arg : List ℕ) → length (91 ∷ arg ++ 93 ∷ []) ≡ length arg + 2
length-bracketed arg = omega (arith, length-append arg (93 ∷ []))

make_message-Returns :
    (name msg : List ℕ)
    → length name < name_size
    → length msg < buf_size
    → Returns (make_message name msg)
make_message-Returns name msg h k =
    (sprintf-Returns_iff (name_size + buf_size) (name ++ 32 ∷ msg)).1
      (omega (arith, length-append name (32 ∷ msg)))

send_rounds-Returns :
    (n : ℕ) (name msg input : List ℕ)
    → length name < name_size
    → length msg < buf_size
    → Returns (send_rounds n name msg input)
unfolding send_rounds
send_rounds-Returns zero name msg input h k = (_, refl)
send_rounds-Returns (suc n) name msg input h k =
    let line = read_line msg input in
    let few = length-read_line msg input k in
    Returns-if (is_quit line.0) _ _ (λ _. (_, refl))
      (λ _.
        Returns->>= (make_message name line.0) _ (make_message-Returns name line.0 h few) (λ text _.
          Returns->>= (send_rounds n name line.0 line.1) _
            (send_rounds-Returns n name line.0 line.1 h few) (λ rest _. (_, refl))))

-- The client never writes past `name` or `name_msg`, whatever is typed and however long it runs, if
-- the argument that names it has at most 17 bytes; with a longer one it always does.
pub run_sender-Returns_iff :
    (n : ℕ) (arg input : List ℕ) → Returns (run_sender n arg input) ↔ (length arg ≤ 17)
unfolding run_sender
run_sender-Returns_iff n arg input = (
  λ r.
      let (name, named, sent) =
        >>=-eq-some (make_name arg) (λ name. send_rounds n name [] input) r.1 in
      omega (arith, length-bracketed arg, (sprintf-text name_size (91 ∷ arg ++ 93 ∷ []) named).0),
  λ h.
      Returns->>= (make_name arg) (λ name. send_rounds n name [] input)
        ((sprintf-Returns_iff name_size (91 ∷ arg ++ 93 ∷ [])).1
          (omega (arith, length-bracketed arg)))
        (λ name named.
          let (short, text) = sprintf-text name_size (91 ∷ arg ++ 93 ∷ []) named in
          send_rounds-Returns n name [] input (rw text short) (omega arith)),
)

-- At the end of the input the client sends the line that it sent last once more in every round.
send_rounds-repeats :
    (n : ℕ) (name msg : List ℕ)
    → length name < name_size
    → length msg < buf_size
    → is_quit msg ≡ false
    → send_rounds n name msg []
      ≡ some (record { messages = replicate n (name ++ 32 ∷ msg); exited = false })
unfolding send_rounds
send_rounds-repeats zero name msg h k stays = refl
send_rounds-repeats (suc n) name msg h k stays =
    let (text, made) = make_message-Returns name msg h k in
    let (fits, same) = sprintf-text (name_size + buf_size) (name ++ 32 ∷ msg) made in
    rw (stays, made, send_rounds-repeats n name msg h k stays, same) refl
