-- ===== src/Student/Fields.antt =====
-- The fields of a student before its bits, as bytes.
use io_t_lab.Common.{
  IsText, ℕ, ◌+◌, ◌*◌, ◌^◌, ◌<◌, ◌≡◌, ◌∙◌, refl, List, [], ◌∷◌, ◌++◌, Option, some, ◌>>=◌, arith,
  All, length, length-append,
}
use mathlib.Core.List.{append_assoc, append-nil}
use io_t_lab.Stream.{
  OutputMemoryStream, write, le_bytes, write_value, write_string, write_elements, write_vector,
  InputMemoryStream, read_value, read_string, read_vector,
}
use io_t_lab.Stream.Output.{Holds, write-Holds}
use io_t_lab.Stream.Input.{
  At, Fits, fits4, string_bytes, element_bytes, vector_bytes, read_value-At, read_string-At,
  read_vector-At, At-split,
}
use io_t_lab.Student.{Student, write_fields, read_fields}

-- The wire format.
abbrev pub field_bytes : Student → List ℕ
field_bytes st =
    le_bytes 4 st.id
    ++ (le_bytes 4 st.health
        ++ (le_bytes 4 st.ability ++ (string_bytes st.name ++ vector_bytes 4 st.friends)))

module _ (fresh : ℕ → ℕ) where
  -- A function that appends these bytes to whatever the stream holds.
  Appends : (OutputMemoryStream → Option OutputMemoryStream) → List ℕ → Type 0
  Appends f xs =
      (bytes : List ℕ) (s : OutputMemoryStream)
      → Holds fresh bytes s
      → length bytes + length xs < 2 ^ 30
      → (t : OutputMemoryStream) × (f s ≡ some t)
        × Holds fresh (bytes ++ xs) t
        × (t.bit_head ≡ s.bit_head)

  Appends->>= :
      (f g : OutputMemoryStream → Option OutputMemoryStream) (xs ys : List ℕ)
      → Appends f xs
      → Appends g ys
      → Appends (λ s. f s >>= g) (xs ++ ys)
  unfolding Appends
  Appends->>= f g xs ys hf hg bytes s h small =
      let total = length-append xs ys in
      let (t, ran, held, kept) = hf bytes s h (omega (arith, total)) in
      let (u, ran', held', kept') =
        hg (bytes ++ xs) t held (omega (arith, total, length-append bytes xs)) in
      (u, rw ran ran', rw (← append_assoc bytes xs ys) held', kept' ∙ kept)

  write-Appends : (xs : List ℕ) → Appends (write fresh xs) xs
  unfolding Appends
  write-Appends xs bytes s h small = write-Holds fresh xs bytes s h small

  write_value-Appends : (width v : ℕ) → Appends (write_value fresh width v) (le_bytes width v)
  unfolding write_value
  write_value-Appends width v = write-Appends (le_bytes width v)

  write_string-Appends : (text : List ℕ) → Appends (write_string fresh text) (string_bytes text)
  unfolding write_string
  write_string-Appends text =
      Appends->>= (write_value fresh 8 (length text)) (write fresh text) _ text
        (write_value-Appends 8 (length text)) (write-Appends text)

  write_elements-Appends :
      (width : ℕ) (vs : List ℕ) → Appends (write_elements fresh width vs) (element_bytes width vs)
  unfolding write_elements Appends
  write_elements-Appends width [] bytes s h small = (s, refl, rw (append-nil bytes) h, refl)
  write_elements-Appends width (v ∷ vs) bytes s h small =
      Appends->>= (write_value fresh width v) (write_elements fresh width vs) _ _
        (write_value-Appends width v) (write_elements-Appends width vs) bytes s h small

  write_vector-Appends :
      (width : ℕ) (vs : List ℕ) → Appends (write_vector fresh width vs) (vector_bytes width vs)
  unfolding write_vector
  write_vector-Appends width vs =
      Appends->>= (write_value fresh 8 (length vs)) (write_elements fresh width vs) _ _
        (write_value-Appends 8 (length vs)) (write_elements-Appends width vs)

  write_fields-Appends : (st : Student) → Appends (write_fields fresh st) (field_bytes st)
  unfolding write_fields
  write_fields-Appends st =
      Appends->>= (write_value fresh 4 st.id) _ _ _ (write_value-Appends 4 st.id) (
        Appends->>= (write_value fresh 4 st.health) _ _ _ (write_value-Appends 4 st.health) (
          Appends->>= (write_value fresh 4 st.ability) _ _ _ (write_value-Appends 4 st.ability) (
            Appends->>= (write_string fresh st.name) _ _ _ (write_string-Appends st.name)
              (write_vector-Appends 4 st.friends))))

  -- The fields are appended in the wire format, whatever the stream holds already.
  pub write_fields-Holds :
      (st : Student) (bytes : List ℕ) (s : OutputMemoryStream)
      → Holds fresh bytes s
      → length bytes + length (field_bytes st) < 2 ^ 30
      → (t : OutputMemoryStream) × (write_fields fresh st s ≡ some t)
        × Holds fresh (bytes ++ field_bytes st) t
        × (t.bit_head ≡ s.bit_head)
  unfolding Appends
  write_fields-Holds st = write_fields-Appends st

-- What the widths of the fields and the name must be like.
pub record IsSendable (st : Student) : Type 0 where
  pub id : st.id < 2 ^ 32
  pub health : st.health < 2 ^ 32
  pub ability : st.ability < 2 ^ 32
  pub name : IsText st.name
  pub friends : All (λ f. f < 2 ^ 32) st.friends
  pub short : length (field_bytes st) < 2 ^ 29

All-fits4 : (vs : List ℕ) → All (λ f. f < 2 ^ 32) vs → All (Fits 4) vs
All-fits4 [] h = tt
All-fits4 (v ∷ vs) h = (fits4 v h.0, All-fits4 vs h.1)

length-element_bytes : (vs : List ℕ) → length (element_bytes 4 vs) ≡ 4 * length vs
length-element_bytes [] = refl
length-element_bytes (v ∷ vs) =
    omega (arith, length-append (le_bytes 4 v) (element_bytes 4 vs), length-element_bytes vs)

pub length-field_bytes :
    (st : Student) → length (field_bytes st) ≡ 28 + length st.name + 4 * length st.friends
length-field_bytes st =
    omega
      (arith, length-append st.name (vector_bytes 4 st.friends), length-element_bytes st.friends)

read_fields-eq :
    (behind : List ℕ) (old : Student) (id health ability : ℕ) (name friends : List ℕ)
    (s s1 s2 s3 s4 s5 : InputMemoryStream)
    → read_value 4 s ≡ some (id, s1)
    → read_value 4 s1 ≡ some (health, s2)
    → read_value 4 s2 ≡ some (ability, s3)
    → read_string behind s3 ≡ some (name, s4)
    → read_vector 4 s4 ≡ some (friends, s5)
    → read_fields behind old s
      ≡ some (
        record old { id = id; health = health; ability = ability; name = name; friends = friends },
        s5,
      )
unfolding read_fields
read_fields-eq behind old id health ability name friends s s1 s2 s3 s4 s5 a b c d e =
    rw (a, b, c, d, e) refl

-- What was appended is read back over any old student, if the byte behind the name's block is 0.
pub read_fields-At :
    (tail rest : List ℕ) (st old : Student) (s : InputMemoryStream)
    → IsSendable st
    → At [] (field_bytes st ++ rest) s
    → (t : InputMemoryStream) × (read_fields (0 ∷ tail) old s
        ≡ some (
          record old {
            id = st.id;
            health = st.health;
            ability = st.ability;
            name = st.name;
            friends = st.friends;
          },
          t,
        ))
      × At (field_bytes st) rest t
read_fields-At tail rest st old s ok h =
    let total = length-field_bytes st in
    let elements = length-element_bytes st.friends in
    let short = ok.short in
    let a = le_bytes 4 st.id in
    let b = le_bytes 4 st.health in
    let c = le_bytes 4 st.ability in
    let d = string_bytes st.name in
    let e = vector_bytes 4 st.friends in
    let (s1, r1, h1) =
      read_value-At [] (b ++ (c ++ (d ++ e)) ++ rest) 4 st.id s
        (At-split [] a (b ++ (c ++ (d ++ e))) rest s h) (fits4 st.id ok.id) (omega arith) in
    let (s2, r2, h2) =
      read_value-At a (c ++ (d ++ e) ++ rest) 4 st.health s1
        (At-split a b (c ++ (d ++ e)) rest s1 h1) (fits4 st.health ok.health) (omega arith) in
    let (s3, r3, h3) =
      read_value-At (a ++ b) (d ++ e ++ rest) 4 st.ability s2
        (At-split (a ++ b) c (d ++ e) rest s2 h2) (fits4 st.ability ok.ability) (omega arith) in
    let (s4, r4, h4) =
      read_string-At tail (a ++ b ++ c) st.name (e ++ rest) s3
        (At-split (a ++ b ++ c) d e rest s3 h3) ok.name (omega (arith, total)) in
    let (s5, r5, h5) =
      read_vector-At 4 (a ++ b ++ c ++ d) st.friends rest s4 h4 (All-fits4 st.friends ok.friends)
        (omega (arith, total)) (omega (arith, total, elements)) in
    (
      s5,
      read_fields-eq (0 ∷ tail) old st.id st.health st.ability st.name st.friends s s1 s2 s3 s4 s5
          r1 r2 r3 r4 r5,
      h5,
    )
