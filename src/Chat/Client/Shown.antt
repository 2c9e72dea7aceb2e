-- ===== src/Chat/Client/Shown.antt =====
-- What is typed at one client of lab05/lab05_src/chat_clnt.c, through the server of
-- lab05/lab05_src/chat_serv.c, on the terminal of another.
use io_t_lab.Common.{
  IsLine, line-IsText, c_string-fgets, ℕ, suc, ◌+◌, ◌<◌, ◌≡◌, ◌∙◌, refl, ap, ap₂, sym, subst-some,
  arith, List, [], ◌∷◌, ◌++◌, some, ◌==◌, if◌then◌else◌, ◌>>=◌, >>=-eq-some, length,
  c_string-IsText, IsText, lines_of, All, All-append, concat, map, get_elem?, inl, inr, Bool-cases,
}
use mathlib.Core.List.{append_assoc, append-nil}
use mathlib.Core.Path.{subst}
use io_t_lab.Echo.{got}
use io_t_lab.Chat.{Chat, Write, members, send_msg}
use io_t_lab.Chat.Threads.{Server, serving, message, Reach, here, next}
use io_t_lab.Chat.Client.{
  buf_size, name_size, make_name, read_line, make_message, Typed, send_rounds, run_sender, recv_msg,
}
use io_t_lab.Chat.Client.Bounds.{sprintf-text}

-- "[arg] text\n"
abbrev pub labelled : List ℕ → List ℕ → List ℕ
labelled arg text = (91 ∷ arg ++ 93 ∷ []) ++ 32 ∷ (text ++ 10 ∷ [])

-- The writes of the server for what its `read`s return, with the list of clients unchanged.
abbrev pub relayed : List (List ℕ) → Chat → List Write
relayed chunks c = concat (map (λ chunk. send_msg chunk c) chunks)

-- The bytes that a socket is sent.
abbrev pub bytes_to : ℕ → List Write → List ℕ
bytes_to sock [] = []
bytes_to sock (w ∷ ws) =
    let rest = bytes_to sock ws in if w.sock == sock then w.msg ++ rest else rest

abbrev pub times : ℕ → List ℕ → ℕ
times sock [] = 0
times sock (x ∷ xs) = let rest = times sock xs in if x == sock then suc rest else rest

bytes_to-append :
    (sock : ℕ) (ws vs : List Write)
    → bytes_to sock (ws ++ vs) ≡ bytes_to sock ws ++ bytes_to sock vs
bytes_to-append sock [] vs = refl
bytes_to-append sock (w ∷ ws) vs = elim (Bool-cases (w.sock == sock)) [
  | inl ours ↦
      rw
        (ours, bytes_to-append sock ws vs, append_assoc w.msg (bytes_to sock ws) (bytes_to sock vs))
        refl
  | inr away ↦ rw (away, bytes_to-append sock ws vs) refl
]

abbrev to_all : List ℕ → List ℕ → List Write
to_all msg socks = map (λ sock. record { sock = sock; msg = msg }) socks

bytes_to-away :
    (sock : ℕ) (msg socks : List ℕ) → times sock socks ≡ 0 → bytes_to sock (to_all msg socks) ≡ []
bytes_to-away sock msg [] h = refl
bytes_to-away sock msg (x ∷ xs) h = elim (Bool-cases (x == sock)) [
  | inl ours ↦ absurd (ground arith)
  | inr away ↦ rw away (bytes_to-away sock msg xs (ground arith))
]

bytes_to-once :
    (sock : ℕ) (msg socks : List ℕ) → times sock socks ≡ 1 → bytes_to sock (to_all msg socks) ≡ msg
bytes_to-once sock msg [] h = absurd (ground arith)
bytes_to-once sock msg (x ∷ xs) h = elim (Bool-cases (x == sock)) [
  | inl ours ↦ rw (ours, bytes_to-away sock msg xs (ground arith)) (append-nil msg)
  | inr away ↦ rw away (bytes_to-once sock msg xs (ground arith))
]

bytes_to-relayed :
    (sock : ℕ) (chunks : List (List ℕ)) (c : Chat)
    → times sock (members c) ≡ 1
    → bytes_to sock (relayed chunks c) ≡ concat chunks
unfolding send_msg
bytes_to-relayed sock [] c h = refl
bytes_to-relayed sock (chunk ∷ chunks) c h =
    bytes_to-append sock (send_msg chunk c) (relayed chunks c)
    ∙ rw (bytes_to-once sock chunk (members c) h, bytes_to-relayed sock chunks c h) refl

-- A thread that serves a client reads and relays chunk by chunk.
abbrev pub after_chunks : List (List ℕ) → Server → Server
after_chunks chunks s = record s { written = s.written ++ relayed chunks s.chat }

Reach-relayed :
    (i sock : ℕ) (chunks : List (List ℕ)) (s t : Server)
    → get_elem? t.threads i ≡ some (serving sock)
    → Reach s t
    → Reach s (after_chunks chunks t)
Reach-relayed i sock [] s t h r =
    subst (λ ws. Reach s (record t { written = ws })) (sym (append-nil t.written)) r
Reach-relayed i sock (chunk ∷ chunks) s t h r =
    subst (λ ws. Reach s (record t { written = ws }))
      (append_assoc t.written (send_msg chunk t.chat) (relayed chunks t.chat))
      (Reach-relayed i sock chunks s (record t { written = t.written ++ send_msg chunk t.chat }) h
        (next r (message i sock chunk h)))

-- What is printed of pieces without a NUL.
IsText-left : (xs ys : List ℕ) → IsText (xs ++ ys) → IsText xs × IsText ys
IsText-left [] ys h = (tt, h)
IsText-left (x ∷ xs) ys h = let (l, r) = IsText-left xs ys h.1 in ((h.0, l), r)

recv_msg-concat :
    (parts : List (List ℕ))
    → IsText (concat parts)
    → concat (recv_msg (map got parts)) ≡ concat parts
unfolding recv_msg
recv_msg-concat [] h = refl
recv_msg-concat (p ∷ parts) h =
    let (a, b) = IsText-left p (concat parts) h in
    rw (c_string-IsText p a, recv_msg-concat parts b) refl

labelled-IsText : (arg text : List ℕ) → IsText arg → IsText text → IsText (labelled arg text)
labelled-IsText arg text a b =
    All-append (λ b. 0 < b) (91 ∷ arg ++ 93 ∷ []) (32 ∷ (text ++ 10 ∷ []))
      (omega arith, All-append (λ b. 0 < b) arg (93 ∷ []) a (omega arith, tt))
      (omega arith, line-IsText text b)

transcript-IsText :
    (arg : List ℕ) (texts : List (List ℕ))
    → IsText arg
    → All (IsLine 98) texts
    → IsText (concat (map (labelled arg) texts))
transcript-IsText arg [] a h = tt
transcript-IsText arg (t ∷ ts) a (line, lines) =
    All-append (λ b. 0 < b) (labelled arg t) (concat (map (labelled arg) ts))
      (labelled-IsText arg t a line.no_nul) (transcript-IsText arg ts a lines)

read_line-text :
    (msg text rest : List ℕ)
    → IsLine 98 text
    → read_line msg (text ++ 10 ∷ rest) ≡ (text ++ 10 ∷ [], rest)
read_line-text msg [] rest line = refl
read_line-text msg (b ∷ bs) rest line =
    let (line', rest') = c_string-fgets 98 (b ∷ bs) rest line in rw (line', rest') refl

send_rounds-line :
    (n : ℕ) (name msg t rest : List ℕ)
    → IsLine 98 t
    → send_rounds (suc n) name msg ((t ++ 10 ∷ []) ++ rest) ≡ (
        make_message name (t ++ 10 ∷ []) >>= λ text.
        send_rounds n name (t ++ 10 ∷ []) rest >>= λ later.
        some (record later { messages = text ∷ later.messages }))
unfolding send_rounds
send_rounds-line n name msg t rest line =
    rw (append_assoc t (10 ∷ []) rest, read_line-text msg t rest line, line.stays) refl

send_rounds-lines :
    (name msg : List ℕ) (texts : List (List ℕ)) {typed : Typed}
    → All (IsLine 98) texts
    → send_rounds (length texts) name msg (lines_of texts) ≡ some typed
    → typed.messages ≡ map (λ t. name ++ 32 ∷ (t ++ 10 ∷ [])) texts
unfolding send_rounds
send_rounds-lines name msg [] h e = ground arith
send_rounds-lines name msg (t ∷ ts) (line, lines) e =
    let (text, made, more) =
      >>=-eq-some (make_message name (t ++ 10 ∷ [])) _
        (sym (send_rounds-line (length ts) name msg t (lines_of ts) line) ∙ e) in
    let (later, sent, done) =
      >>=-eq-some (send_rounds (length ts) name (t ++ 10 ∷ []) (lines_of ts)) _ more in
    let ih = send_rounds-lines name (t ++ 10 ∷ []) ts lines sent in
    let same = (sprintf-text (name_size + buf_size) (name ++ 32 ∷ (t ++ 10 ∷ [])) made).1 in
    subst-some (λ (r : Typed). r.messages ≡ map (λ t. name ++ 32 ∷ (t ++ 10 ∷ [])) (t ∷ ts)) done
      (ap₂ ◌∷◌ same ih)

run_sender-lines :
    (arg : List ℕ) (texts : List (List ℕ)) {typed : Typed}
    → All (IsLine 98) texts
    → run_sender (length texts) arg (lines_of texts) ≡ some typed
    → typed.messages ≡ map (labelled arg) texts
unfolding run_sender
run_sender-lines arg texts lines e =
    let input = lines_of texts in
    let (name, named, sent) =
      >>=-eq-some (make_name arg) (λ name. send_rounds (length texts) name [] input) e in
    let (short, same) = sprintf-text name_size (91 ∷ arg ++ 93 ∷ []) named in
    send_rounds-lines name [] texts lines sent
    ∙ ap (λ n. map (λ t. n ++ 32 ∷ (t ++ 10 ∷ [])) texts) same

-- If lines are typed at a client, each of at most 98 bytes with neither a newline nor a NUL inside
-- and none of them the one that quits, and a thread of the server reads in any pieces what the
-- client sends, with the list of clients unchanged meanwhile, then the server can relay the pieces
-- one by one, and a client whose socket is in the list once prints, of what the server writes to
-- it and in whatever pieces it reads that, every line in order behind its label "[arg] ".
pub recv_msg-typed :
    (arg : List ℕ) (texts : List (List ℕ)) (typed : Typed) (s : Server) (i from_sock sock : ℕ)
    (chunks parts : List (List ℕ))
    → IsText arg
    → All (IsLine 98) texts
    → run_sender (length texts) arg (lines_of texts) ≡ some typed
    → get_elem? s.threads i ≡ some (serving from_sock)
    → times sock (members s.chat) ≡ 1
    → concat chunks ≡ concat typed.messages
    → concat parts ≡ bytes_to sock (relayed chunks s.chat)
    → Reach s (after_chunks chunks s)
      × (concat (recv_msg (map got parts)) ≡ concat (map (labelled arg) texts))
recv_msg-typed arg texts typed s i from_sock sock chunks parts a lines ran served once sent
      arrived =
    let all : concat parts ≡ concat (map (labelled arg) texts) =
      arrived
      ∙ bytes_to-relayed sock chunks s.chat once
      ∙ sent
      ∙ ap concat (run_sender-lines arg texts lines ran) in
    (
      Reach-relayed i from_sock chunks s s served here,
      recv_msg-concat parts (subst IsText (sym all) (transcript-IsText arg texts a lines)) ∙ all,
    )
