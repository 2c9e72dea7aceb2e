-- ===== src/Echo/Clients/Answered.antt =====
-- The echo clients with a server that writes back every line, in parts of any size.
use io_t_lab.Common.{
  is_quit, ℕ, zero, suc, ◌+◌, ◌<◌, ◌≤◌, ◌≡◌, ◌∙◌, refl, ap, ap₂, sym, arith, List, [], ◌∷◌, ◌++◌,
  some, Bool, true, false, ltb, lt→ltb, length, drop, concat, c_string, IsText, c_string-append,
  All, map, replicate, length-append, take-append_self, drop-append_add,
}
use mathlib.Core.List.{append-nil, append_assoc}
use io_t_lab.Echo.{Reading, got, eof, failed}
use io_t_lab.Echo.Clients.{buf_size, overlay, received, broken, Entry, closed, read_echo, run_echo}

-- A part holds at least one byte: a `read` of 0 is the end of the stream.
abbrev IsPart : List ℕ → Type 0
IsPart c = 0 < length c

overlay-append :
    (done bytes rest : List ℕ)
    → overlay (length done) bytes (done ++ rest) ≡ (done ++ bytes) ++ drop (length bytes) rest
overlay-append done bytes rest =
    ap₂ (λ a b. a ++ bytes ++ b) (take-append_self done rest)
      (drop-append_add done rest (length bytes))

-- A line typed, written as a whole and written back in parts.
pub record Exchanged : Type 0 where
  pub line : List ℕ
  pub parts : List (List ℕ)

abbrev IsExchanged : Exchanged → Type 0
IsExchanged x =
    IsText x.line
    × (is_quit x.line ≡ false)
    × (length x.line < buf_size)
    × (concat x.parts ≡ x.line)
    × All IsPart x.parts

abbrev pub entry : Exchanged → Entry
entry x = record { line = x.line; wrote = some (length x.line) }

abbrev pub readings : List Exchanged → List Reading
readings xs = concat (map (λ x. map got x.parts) xs)

module _ (t : Bool) where
  read_echo-full :
      (n : ℕ) (rs : List Reading) (message : List ℕ)
      → read_echo t n rs message n ≡ received message n rs
  unfolding read_echo
  read_echo-full n [] message = ground arith
  read_echo-full n (got bytes ∷ rs) message = ground arith
  read_echo-full n (eof ∷ rs) message = ground arith
  read_echo-full n (failed ∷ rs) message = ground arith

  read_echo-got :
      (n k : ℕ) (bytes : List ℕ) (rs : List Reading) (message : List ℕ)
      → k < n
      → k + length bytes ≤ buf_size
      → read_echo t n (got bytes ∷ rs) message k
        ≡ read_echo t n rs (overlay k bytes message) (k + length bytes)
  unfolding read_echo
  read_echo-got n k bytes rs message h fits = ground arith

  read_echo-parts :
      (parts : List (List ℕ)) (more : List Reading) (done rest : List ℕ) (n : ℕ)
      → All IsPart parts
      → length done + length (concat parts) ≡ n
      → n < buf_size
      → (tail : List ℕ) × (read_echo t n (map got parts ++ more) (done ++ rest) (length done)
          ≡ received ((done ++ concat parts) ++ tail) n more)
  read_echo-parts [] more done rest n h e small = (
    rest,
    let e' : length done ≡ n = omega arith in
        ap (read_echo t n more (done ++ rest)) e'
        ∙ read_echo-full n more (done ++ rest)
        ∙ ap (λ d. received (d ++ rest) n more) (sym (append-nil done)),
  )
  read_echo-parts (c ∷ cs) more done rest n h e small =
      let ih =
        read_echo-parts cs more (done ++ c) (drop (length c) rest) n h.1
          (omega (arith, length-append done c, length-append c (concat cs))) small in
      (
        ih.0,
        read_echo-got n (length done) c (map got cs ++ more) (done ++ rest)
              (omega (arith, length-append c (concat cs)))
              (omega (arith, length-append c (concat cs)))
            ∙ ap₂ (read_echo t n (map got cs ++ more)) (overlay-append done c rest)
                (sym (length-append done c))
            ∙ ih.1
            ∙ ap (λ d. received (d ++ ih.0) n more) (append_assoc done c (concat cs)),
      )

  c_string-typed :
      (line message : List ℕ) → IsText line → c_string (overlay 0 (line ++ 0 ∷ []) message) ≡ line
  c_string-typed line message h =
      ap c_string (append_assoc line (0 ∷ []) _) ∙ c_string-append line _ h

  c_string-ended :
      (line tail : List ℕ)
      → IsText line
      → c_string (overlay (length line) (0 ∷ []) (line ++ tail)) ≡ line
  c_string-ended line tail h =
      ap c_string (overlay-append line (0 ∷ []) tail ∙ append_assoc line (0 ∷ []) _)
      ∙ c_string-append line _ h

  run_echo-line :
      (x : Exchanged) (es : List Entry) (more : List Reading) (message : List ℕ)
      → IsExchanged x
      → (after : List ℕ) × (run_echo t (entry x ∷ es) (map got x.parts ++ more) message
          ≡ (x.line ∷ (run_echo t es more after).0, (run_echo t es more after).1))
  unfolding run_echo
  run_echo-line x es more message (nonzero, q, short, whole, parted) =
      let typed = overlay 0 (x.line ++ 0 ∷ []) message in
      let read =
        read_echo-parts x.parts more [] typed (length x.line) parted
          (omega (arith, ap length whole)) short in
      let e : read_echo t (length x.line) (map got x.parts ++ more) typed 0
          ≡ received (concat x.parts ++ read.0) (length x.line) more =
        read.1 in
      let ended : c_string (overlay (length x.line) (0 ∷ []) (concat x.parts ++ read.0)) ≡ x.line =
        ap (λ l. c_string (overlay (length x.line) (0 ∷ []) (l ++ read.0))) whole
        ∙ c_string-ended x.line read.0 nonzero in
      let fits : ltb (length x.line) buf_size ≡ true = ground arith in
      (
        overlay (length x.line) (0 ∷ []) (concat x.parts ++ read.0),
        rw (c_string-typed x.line message nonzero) (rw q (rw e (rw fits (rw ended refl)))),
      )

  -- For lines typed that hold no NUL and have fewer than 1024 bytes, a server that writes each back
  -- in any parts, and then q or Q, both clients print every line as it was typed and close.
  pub run_echo-exchanged :
      (xs : List Exchanged) (last : Entry) (more : List Reading) (message : List ℕ)
      → All IsExchanged xs
      → IsText last.line
      → is_quit last.line ≡ true
      → run_echo t (map entry xs ++ last ∷ []) (readings xs ++ more) message
        ≡ (map (λ x. x.line) xs, closed)
  unfolding run_echo
  run_echo-exchanged [] last more message h nonzero q =
      rw (c_string-typed last.line message nonzero) (rw q refl)
  run_echo-exchanged (x ∷ xs) last more message h nonzero q =
      let step = run_echo-line x (map entry xs ++ last ∷ []) (readings xs ++ more) message h.0 in
      let ih = run_echo-exchanged xs last more step.0 h.1 nonzero q in
      ap (λ rs. run_echo t (map entry (x ∷ xs) ++ last ∷ []) rs message)
        (append_assoc (map got x.parts) (readings xs) more)
      ∙ step.1
      ∙ ap (λ r. (x.line ∷ r.0, r.1)) ih

-- While bytes of the echo are missing, the end of the stream ends the client of L4LB with an error,
-- and the client of lab05 reads on however often `read` returns 0.
pub read_echo-eof :
    (str_len recv_len k : ℕ) (rs : List Reading) (message : List ℕ)
    → recv_len < str_len
    → (read_echo true str_len (eof ∷ rs) message recv_len ≡ broken)
      × (read_echo false str_len (replicate k eof ++ rs) message recv_len
          ≡ read_echo false str_len rs message recv_len)
unfolding read_echo
read_echo-eof str_len recv_len zero rs message h = (ground arith, refl)
read_echo-eof str_len recv_len (suc k) rs message h =
    let ih = read_echo-eof str_len recv_len k rs message h in
    (ground arith, rw (lt→ltb recv_len str_len h) ih.1)
