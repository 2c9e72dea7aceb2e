-- ===== src/Tcp/Shown.antt =====
-- What is typed at five clients of lab04/src/tcp_client.c, on the terminal of lab04/src/tcp_server.c.
use io_t_lab.Common.{
  ℕ, suc, ◌≡◌, ◌∙◌, refl, ap, sym, List, [], ◌∷◌, ◌++◌, Option, some, true, All, concat, map,
  length, lines_of, IsLine, c_string-fgets,
}
use mathlib.Core.List.{append_assoc}
use io_t_lab.Echo.{Reading, got, eof}
use io_t_lab.Tcp.{
  next_line, Typed, send_lines, gone, read_client, returned, serve_clients, run_server,
}

-- One client: what `message` holds before it is set, the lines typed, the input behind "q\n", and
-- the pieces in which the server reads what is sent.
pub record Visit : Type 0 where
  pub unset : List ℕ
  pub texts : List (List ℕ)
  pub left : List ℕ
  pub parts : List (List ℕ)

abbrev pub typed : Visit → Typed
typed v = send_lines (suc (length v.texts)) v.unset (lines_of v.texts ++ 113 ∷ 10 ∷ v.left)

-- The lines can be typed, and the server reads all that is sent.
pub record IsVisit (v : Visit) : Type 0 where
  pub lines : All (IsLine 1022) v.texts
  pub arrived : concat v.parts ≡ concat (typed v).lines

abbrev pub readings : Visit → Option (List Reading)
readings v = some (map got v.parts ++ eof ∷ [])

next_line-text :
    (message text rest : List ℕ)
    → IsLine 1022 text
    → next_line message (text ++ 10 ∷ rest) ≡ (text ++ 10 ∷ [], rest)
next_line-text message [] rest line = refl
next_line-text message (b ∷ bs) rest line =
    let (line', rest') = c_string-fgets 1022 (b ∷ bs) rest line in rw (line', rest') refl

send_lines-line :
    (n : ℕ) (message text rest : List ℕ)
    → IsLine 1022 text
    → send_lines (suc n) message (text ++ 10 ∷ rest) ≡ (
        let later = send_lines n (text ++ 10 ∷ []) rest in
        record later { lines = (text ++ 10 ∷ []) ∷ later.lines })
unfolding send_lines
send_lines-line n message text rest line =
    rw (next_line-text message text rest line, line.stays) refl

send_lines-lines :
    (message : List ℕ) (texts : List (List ℕ)) (left : List ℕ)
    → All (IsLine 1022) texts
    → send_lines (suc (length texts)) message (lines_of texts ++ 113 ∷ 10 ∷ left)
      ≡ record { lines = map (λ t. t ++ 10 ∷ []) texts; closed = true }
unfolding send_lines
send_lines-lines message [] left h = refl
send_lines-lines message (t ∷ ts) left (line, lines) =
    let whole : lines_of (t ∷ ts) ++ 113 ∷ 10 ∷ left ≡ t ++ 10 ∷ (lines_of ts ++ 113 ∷ 10 ∷ left) =
      append_assoc (t ++ 10 ∷ []) (lines_of ts) (113 ∷ 10 ∷ left)
      ∙ append_assoc t (10 ∷ []) (lines_of ts ++ 113 ∷ 10 ∷ left) in
    ap (send_lines (suc (suc (length ts))) message) whole
    ∙ send_lines-line (suc (length ts)) message t (lines_of ts ++ 113 ∷ 10 ∷ left) line
    ∙ ap (λ (later : Typed). record later { lines = (t ++ 10 ∷ []) ∷ later.lines })
        (send_lines-lines (t ++ 10 ∷ []) ts left lines)

read_client-parts :
    (parts : List (List ℕ)) → read_client (map got parts ++ eof ∷ []) ≡ (concat parts, gone)
unfolding read_client
read_client-parts [] = refl
read_client-parts (p ∷ parts) = rw (read_client-parts parts) refl

shown-visit : (v : Visit) → IsVisit v → concat v.parts ≡ lines_of v.texts
shown-visit v h =
    h.arrived ∙ ap (λ (t : Typed). concat t.lines) (send_lines-lines v.unset v.texts v.left h.lines)

-- With a round left for each client.
serve_clients-typed :
    (visits : List Visit) (later : List (Option (List Reading)))
    → All IsVisit visits
    → All (λ v. (typed v).closed ≡ true) visits
      × (serve_clients (length visits) (map readings visits ++ later)
          ≡ (concat (map (λ v. lines_of v.texts) visits), returned))
unfolding serve_clients
serve_clients-typed [] later h = (tt, refl)
serve_clients-typed (v ∷ visits) later (h, hs) =
    let (closed, rest) = serve_clients-typed visits later hs in
    (
      (ap (λ (t : Typed). t.closed) (send_lines-lines v.unset v.texts v.left h.lines), closed),
      rw (read_client-parts v.parts, rest, shown-visit v h) refl,
    )

-- If each of five clients types lines, each of at most 1022 bytes with neither a newline nor a NUL
-- inside and none of them the one that quits, and then "q", and the server reads what each sends in
-- any pieces and then the end of the stream, then every client has closed its socket, and the
-- server shows all the lines, client by client and in order, and returns, without another `accept`
-- for clients that come later.
pub run_server-typed :
    (visits : List Visit) (later : List (Option (List Reading)))
    → length visits ≡ 5
    → All IsVisit visits
    → All (λ v. (typed v).closed ≡ true) visits
      × (run_server (map readings visits ++ later)
          ≡ (concat (map (λ v. lines_of v.texts) visits), returned))
run_server-typed visits later five h =
    let (closed, served) = serve_clients-typed visits later h in
    (closed, ap (λ n. serve_clients n (map readings visits ++ later)) (sym five) ∙ served)
