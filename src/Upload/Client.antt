-- ===== src/Upload/Client.antt =====
-- lab05/lab05_src/fileup_clnt.c: what the client writes to its socket.
use io_t_lab.Common.{
  ℕ, zero, suc, ◌<◌, ◌≤◌, ◌≡◌, ◌∙◌, refl, ap, List, [], ◌∷◌, ◌++◌, Option, some, none, ◌>>=◌,
  Bool-cases, inl, inr, arith, ltb, ltb→lt, if◌then◌else◌, take, drop, concat, length, length-drop,
  take-append-drop,
}
use mathlib.Core.List.{append-nil}
use io_t_lab.Raw.{bytes32}

-- BUF_SIZE
abbrev pub buf_size : ℕ
buf_size = 1024

-- The loop of lines 50-59 over what is left of the file, with fuel: the bytes of each `write`.
unfoldable pub send_chunks : ℕ → List ℕ → Option (List (List ℕ))
send_chunks zero file = none
send_chunks (suc fuel) file =
    let rest = send_chunks fuel (drop buf_size file) in
    if ltb (length (take buf_size file)) buf_size
    then some (take buf_size file ∷ [])
    else (rest >>= λ chunks. some (take buf_size file ∷ chunks))

-- Lines 43-59.
unfoldable pub send_file : List ℕ → List ℕ → Option (List (List ℕ))
unfolding send_chunks
send_file name file =
    send_chunks (suc (length file)) file >>= λ chunks. some (bytes32 (length name) ∷ name ∷ chunks)

take-all : (n : ℕ) (xs : List ℕ) → length (take n xs) < n → take n xs ≡ xs
take-all zero xs h = absurd (omega arith)
take-all (suc n) [] h = refl
take-all (suc n) (x ∷ xs) h = ap (◌∷◌ x) (take-all n xs (omega arith))

length-take_le : (n : ℕ) (xs : List ℕ) → length (take n xs) ≤ length xs
length-take_le zero xs = omega arith
length-take_le (suc n) [] = omega arith
length-take_le (suc n) (x ∷ xs) = omega (arith, length-take_le n xs)

-- If the file has fewer bytes than the fuel, the loop ends, and what it has written is the file.
send_chunks-concat :
    (fuel : ℕ) (file : List ℕ)
    → length file < fuel
    → (chunks : List (List ℕ)) × (send_chunks fuel file ≡ some chunks) × (concat chunks ≡ file)
unfolding send_chunks
send_chunks-concat zero file h = absurd (omega arith)
send_chunks-concat (suc fuel) file h =
    let piece = take buf_size file in
    elim (Bool-cases (ltb (length piece) buf_size)) [
      | inl last ↦
          rw last (piece ∷ [], refl, append-nil piece ∙ take-all buf_size file (ltb→lt _ _ last))
      | inr full ↦
          let long : buf_size ≤ length piece = ground arith in
          let (chunks, ran, all) =
            send_chunks-concat fuel (drop buf_size file)
              (omega (arith, long, length-take_le buf_size file, length-drop buf_size file)) in
          rw (full, ran)
            (piece ∷ chunks, refl, ap (λ r. piece ++ r) all ∙ take-append-drop buf_size file)
    ]

-- The client always ends its upload, and what it has written is the length of the file's name, the
-- name, and the whole file.
pub send_file-concat :
    (name file : List ℕ)
    → (chunks : List (List ℕ)) × (send_file name file ≡ some chunks)
      × (concat chunks ≡ bytes32 (length name) ++ name ++ file)
unfolding send_file
send_file-concat name file =
    let (chunks, ran, all) = send_chunks-concat (suc (length file)) file (omega arith) in
    rw ran (
      bytes32 (length name) ∷ name ∷ chunks,
      refl,
      ap (λ r. bytes32 (length name) ++ name ++ r) all,
    )
