-- ===== src/Stream/Input.antt =====
-- What the input stream of lab06 reads where the bytes are known.
use io_t_lab.Common.{
  c_string, IsText, ℕ, ◌+◌, ◌^◌, ◌<◌, ◌≡◌, ◌∙◌, refl, sym, ap, List, [], ◌∷◌, ◌++◌, some, arith,
  All, leb, true, length, length-append, take-append_at, drop-append_at, u32,
}
use mathlib.Core.List.{append_assoc, append-nil}
use io_t_lab.Stream.{
  InputMemoryStream, read, le_bytes, from_le, read_value, read_string, read_elements, read_vector,
}

-- The stream has read `front`, and `rest` is next.
pub record At (front rest : List ℕ) (s : InputMemoryStream) : Type 0 where
  pub layout : s.buffer ≡ front ++ rest
  pub headed : s.head ≡ length front
  pub aligned : s.bit_head ≡ 0

pub read-At :
    (front xs rest : List ℕ) (n : ℕ) (s : InputMemoryStream)
    → At front (xs ++ rest) s
    → length xs ≡ n
    → length front + n < 2 ^ 32
    → (t : InputMemoryStream) × (read n s ≡ some (xs, t)) × At (front ++ xs) rest t
unfolding read
read-At front xs rest n s h sized small =
    let room : leb (s.head + n) (length (front ++ (xs ++ rest))) ≡ true =
      ground (arith, length-append front (xs ++ rest), length-append xs rest, h.headed) in
    let wide : u32 (s.head + n) ≡ s.head + n = omega (arith, h.headed) in
    (
      record s { head = s.head + n },
      rw
          (
            h.layout,
            room,
            wide,
            drop-append_at s.head front (xs ++ rest) (sym h.headed),
            take-append_at n xs rest sized,
          )
          refl,
      record {
        layout = h.layout ∙ sym (append_assoc front xs rest);
        headed = omega (arith, h.headed, length-append front xs);
        aligned = h.aligned;
      },
    )

-- A width and a value that it holds.
abbrev pub Fits : ℕ → ℕ → Type 0
Fits width v = (from_le (le_bytes width v) ≡ v) × (length (le_bytes width v) ≡ width)

pub fits4 : (v : ℕ) → v < 2 ^ 32 → Fits 4 v
fits4 v h = (omega arith, refl)

pub fits8 : (v : ℕ) → v < 2 ^ 64 → Fits 8 v
fits8 v h = (omega arith, refl)

pub read_value-At :
    (front rest : List ℕ) (width v : ℕ) (s : InputMemoryStream)
    → At front (le_bytes width v ++ rest) s
    → Fits width v
    → length front + width < 2 ^ 32
    → (t : InputMemoryStream) × (read_value width s ≡ some (v, t))
      × At (front ++ le_bytes width v) rest t
unfolding read_value
read_value-At front rest width v s h fits small =
    let (t, ran, at) = read-At front (le_bytes width v) rest width s h fits.1 small in
    (t, rw (ran, fits.0) refl, at)

pub At-split :
    (front xs ys rest : List ℕ) (s : InputMemoryStream)
    → At front (xs ++ ys ++ rest) s
    → At front (xs ++ (ys ++ rest)) s
At-split front xs ys rest s h = record {
  layout = h.layout ∙ ap (λ b. front ++ b) (append_assoc xs ys rest);
  headed = h.headed;
  aligned = h.aligned;
}

pub At-join :
    (front xs ys rest : List ℕ) (s : InputMemoryStream)
    → At (front ++ xs ++ ys) rest s
    → At (front ++ (xs ++ ys)) rest s
At-join front xs ys rest s h = rw (← append_assoc front xs ys) h

c_string-append : (text tail : List ℕ) → IsText text → c_string (text ++ 0 ∷ tail) ≡ text
c_string-append [] tail h = refl
c_string-append (b ∷ bs) tail h = ground (arith, c_string-append bs tail h.1)

-- The bytes of a string and of a vector.
abbrev pub string_bytes : List ℕ → List ℕ
string_bytes text = le_bytes 8 (length text) ++ text

abbrev pub element_bytes : ℕ → List ℕ → List ℕ
element_bytes width [] = []
element_bytes width (v ∷ vs) = le_bytes width v ++ element_bytes width vs

abbrev pub vector_bytes : ℕ → List ℕ → List ℕ
vector_bytes width vs = le_bytes 8 (length vs) ++ element_bytes width vs

read_string-eq :
    (behind bytes : List ℕ) (n : ℕ) (s t u : InputMemoryStream)
    → read_value 8 s ≡ some (n, t)
    → read (u32 n) t ≡ some (bytes, u)
    → read_string behind s ≡ some (c_string (bytes ++ behind), u)
unfolding read_string
read_string-eq behind bytes n s t u sized ran = rw (sized, ran) refl

pub read_string-At :
    (tail front text rest : List ℕ) (s : InputMemoryStream)
    → At front (string_bytes text ++ rest) s
    → IsText text
    → length front + 8 + length text < 2 ^ 32
    → (t : InputMemoryStream) × (read_string (0 ∷ tail) s ≡ some (text, t))
      × At (front ++ string_bytes text) rest t
read_string-At tail front text rest s h clean small =
    let n = length text in
    let size = le_bytes 8 n in
    let (t, sized, at_size) =
      read_value-At front (text ++ rest) 8 n s (At-split front size text rest s h)
        (fits8 n (omega arith)) (omega arith) in
    let wide : u32 n ≡ n = omega arith in
    let (u, ran, at_text) =
      read-At (front ++ size) text rest n t at_size refl
        (omega (arith, length-append front size)) in
    (
      u,
      read_string-eq (0 ∷ tail) text n s t u sized (ap (λ k. read k t) wide ∙ ran)
          ∙ ap (λ b. some (b, u)) (c_string-append text tail clean),
      At-join front size text rest u at_text,
    )

pub read_elements-At :
    (width : ℕ) (front vs rest : List ℕ) (s : InputMemoryStream)
    → At front (element_bytes width vs ++ rest) s
    → All (Fits width) vs
    → length front + length (element_bytes width vs) < 2 ^ 32
    → (t : InputMemoryStream) × (read_elements width (length vs) s ≡ some (vs, t))
      × At (front ++ element_bytes width vs) rest t
unfolding read_elements
read_elements-At width front [] rest s h fits small = (s, refl, rw (append-nil front) h)
read_elements-At width front (v ∷ vs) rest s h fits small =
    let xs = le_bytes width v in
    let ys = element_bytes width vs in
    let total = length-append xs ys in
    let (t, first, at_first) =
      read_value-At front (ys ++ rest) width v s (At-split front xs ys rest s h) fits.0
        (omega (arith, total, fits.0.1)) in
    let (u, others, at_end) =
      read_elements-At width (front ++ xs) vs rest t at_first fits.1
        (omega (arith, total, length-append front xs)) in
    (u, rw (first, others) refl, At-join front xs ys rest u at_end)

pub read_vector-At :
    (width : ℕ) (front vs rest : List ℕ) (s : InputMemoryStream)
    → At front (vector_bytes width vs ++ rest) s
    → All (Fits width) vs
    → length vs < 2 ^ 32
    → length front + 8 + length (element_bytes width vs) < 2 ^ 32
    → (t : InputMemoryStream) × (read_vector width s ≡ some (vs, t))
      × At (front ++ vector_bytes width vs) rest t
unfolding read_vector
read_vector-At width front vs rest s h fits few small =
    let size = le_bytes 8 (length vs) in
    let ys = element_bytes width vs in
    let (t, sized, at_size) =
      read_value-At front (ys ++ rest) 8 (length vs) s (At-split front size ys rest s h)
        (fits8 (length vs) (omega arith)) (omega arith) in
    let (u, ran, at_end) =
      read_elements-At width (front ++ size) vs rest t at_size fits
        (omega (arith, length-append front size)) in
    (u, rw (sized, ran) refl, At-join front size ys rest u at_end)
