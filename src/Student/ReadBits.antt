-- ===== src/Student/ReadBits.antt =====
-- How the three bit fields of a student are read back, with an unsigned and with a signed `char`.
use Prim.Native.Nat.{bit_or}
use io_t_lab.Common.{
  ℕ, suc, ◌+◌, ◌*◌, ◌/◌, ◌%◌, ◌^◌, ◌<◌, ◌≤◌, ◌≡◌, ◌∙◌, refl, sym, List, [], ◌∷◌, ◌++◌, some, arith,
  ◌==◌, ==_iff, Bool, true, false, ◌||◌, ltb, leb, length, length-append, u8, u32, get_elem?,
  get_elem?-append_at,
}
use mathlib.Core.List.{append_assoc}
use io_t_lab.Stream.{
  InputMemoryStream, join_parts, upper_bits, inner_bits, read_bits, read_over, read_within,
}
use io_t_lab.Stream.Bits.{holds_below, holds_below_at}
use io_t_lab.Stream.Input.{At}
use io_t_lab.Student.{Student, read_bit_fields}
use io_t_lab.Student.BitFields.{FitsBits, bit_bytes}

module _ (char_signed : Bool) (bits at : ℕ) (s : InputMemoryStream) (here : s.bit_head ≡ at) where
  read_bits-within :
      (x : ℕ)
      → at + bits < 8
      → get_elem? s.buffer s.head ≡ some x
      → read_bits char_signed bits s
        ≡ some (inner_bits at bits x, record s { bit_head = (at + bits) % 8 })
  unfolding read_bits read_within
  read_bits-within x fits found =
      let test : ltb 7 (at + bits) ≡ false = ground arith in rw (here, test, found) refl

  read_bits-over :
      (x y : ℕ)
      → 7 < at + bits
      → s.head + 1 < 2 ^ 32
      → get_elem? s.buffer s.head ≡ some x
      → get_elem? s.buffer (suc s.head) ≡ some y
      → read_bits char_signed bits s
        ≡ some (
          join_parts char_signed at bits x y,
          record s { head = suc s.head; bit_head = (at + bits) % 8 },
        )
  unfolding read_bits read_over
  read_bits-over x y over small found next =
      let test : ltb 7 (at + bits) ≡ true = ground arith in
      let wide : u32 (s.head + 1) ≡ suc s.head = omega arith in
      rw (here, test, found, wide, next) refl

module _ (char_signed : Bool) (front rest : List ℕ) (x y z : ℕ) (s : InputMemoryStream)
    (h : At front (x ∷ y ∷ z ∷ rest) s) (small : length front + 3 < 2 ^ 32) where
  first_byte : get_elem? s.buffer s.head ≡ some x
  first_byte = rw h.layout (get_elem?-append_at s.head front (y ∷ z ∷ rest) x (sym h.headed))

  second_byte : get_elem? s.buffer (suc s.head) ≡ some y
  second_byte =
      rw (h.layout, ← append_assoc front (x ∷ []) (y ∷ z ∷ rest))
        (get_elem?-append_at (suc s.head) (front ++ x ∷ []) (z ∷ rest) y
          (omega (arith, h.headed, length-append front (x ∷ []))))

  third_byte : get_elem? s.buffer (suc (suc s.head)) ≡ some z
  third_byte =
      rw (h.layout, ← append_assoc front (x ∷ y ∷ []) (z ∷ rest))
        (get_elem?-append_at (suc (suc s.head)) (front ++ x ∷ y ∷ []) rest z
          (omega (arith, h.headed, length-append front (x ∷ y ∷ []))))

  -- Whatever the three bytes are.
  pub read_bit_fields-eq :
      (old : Student)
      → read_bit_fields char_signed old s
        ≡ some (record old {
          bit_data1 = inner_bits 0 5 x;
          bit_data2 = join_parts char_signed 5 6 x y;
          bit_data3 = join_parts char_signed 3 8 y z;
        })
  unfolding read_bit_fields
  read_bit_fields-eq old =
      let s1 : InputMemoryStream = record s { bit_head = 5 } in
      let s2 : InputMemoryStream = record s { head = suc s.head; bit_head = 3 } in
      let first = read_bits-within char_signed 5 0 s h.aligned x (omega arith) first_byte in
      let second =
        read_bits-over char_signed 6 5 s1 refl x y (omega arith) (omega (arith, h.headed))
          first_byte second_byte in
      let third =
        read_bits-over char_signed 8 3 s2 refl y z (omega arith) (omega (arith, h.headed))
          second_byte third_byte in
      rw (first, second, third) refl

inner_bits-first : (v w : ℕ) → v < 32 → inner_bits 0 5 (v + 32 * w) ≡ v
unfolding inner_bits
inner_bits-first v w h = omega arith

-- The second field from its two bytes, and the third.
second_test : Bool → ℕ → Bool
second_test char_signed v = bit_or (u8 (v / 8 * 8)) (upper_bits char_signed 5 (32 * (v % 8))) == v

third_test : ℕ → Bool
third_test v = bit_or (u8 (v / 32 * 32)) (v % 32) == v

second_tests : holds_below 64 (second_test false) ≡ true
unfolding holds_below second_test upper_bits
second_tests = refl

third_tests : holds_below 256 third_test ≡ true
unfolding holds_below third_test
third_tests = refl

join_parts-second :
    (v1 v2 v3 : ℕ)
    → v1 < 32
    → v2 < 64
    → join_parts false 5 6 (v1 + 32 * (v2 % 8)) (v2 / 8 + 8 * (v3 % 32)) ≡ v2
unfolding join_parts upper_bits second_test
join_parts-second v1 v2 v3 a b =
    let own : (v2 / 8 + 8 * (v3 % 32)) % 8 ≡ v2 / 8 = omega arith in
    let upper : (v1 + 32 * (v2 % 8)) / 32 ≡ v2 % 8 = omega arith in
    let upper' : 32 * (v2 % 8) / 32 ≡ v2 % 8 = omega arith in
    rw (own, upper)
      (rw upper' at ((==_iff _ _).0 (holds_below_at 64 (second_test false) second_tests v2 b)))

join_parts-third :
    (v2 v3 : ℕ) → v2 < 64 → v3 < 256 → join_parts false 3 8 (v2 / 8 + 8 * (v3 % 32)) (v3 / 32) ≡ v3
unfolding join_parts upper_bits third_test
join_parts-third v2 v3 a b =
    let own : v3 / 32 % 8 ≡ v3 / 32 = omega arith in
    let upper : (v2 / 8 + 8 * (v3 % 32)) / 8 ≡ v3 % 32 = omega arith in
    rw (own, upper) ((==_iff _ _).0 (holds_below_at 256 third_test third_tests v3 b))

signed_test : ℕ → Bool
signed_test v = (v / 4 % 2 == 0) || leb 248 (bit_or (u8 (v / 8 * 8)) (248 + v % 8))

signed_tests : holds_below 64 signed_test ≡ true
unfolding holds_below signed_test
signed_tests = refl

join_parts-signed :
    (v1 v2 v3 : ℕ)
    → v1 < 32
    → v2 < 64
    → v2 / 4 % 2 ≡ 1
    → 248 ≤ join_parts true 5 6 (v1 + 32 * (v2 % 8)) (v2 / 8 + 8 * (v3 % 32))
unfolding join_parts upper_bits signed_test
join_parts-signed v1 v2 v3 a b top =
    let own : (v2 / 8 + 8 * (v3 % 32)) % 8 ≡ v2 / 8 = omega arith in
    let upper : (v1 + 32 * (v2 % 8)) / 32 ≡ v2 % 8 = omega arith in
    let negative : leb 128 (v1 + 32 * (v2 % 8)) ≡ true = ground arith in
    rw (negative, own, upper) (ground (arith, holds_below_at 64 signed_test signed_tests v2 b))

module _ (front rest : List ℕ) (st old : Student) (s : InputMemoryStream)
    (h : At front (bit_bytes st ++ rest) s) (fits : FitsBits st)
    (small : length front + 3 < 2 ^ 32) where
  -- Where `char` is unsigned, the three fields are read back.
  pub read_bit_fields-unsigned :
      read_bit_fields false old s
      ≡ some (record old {
        bit_data1 = st.bit_data1;
        bit_data2 = st.bit_data2;
        bit_data3 = st.bit_data3;
      })
  read_bit_fields-unsigned =
      read_bit_fields-eq false front rest _ _ _ s h small old
      ∙ rw
          (
            inner_bits-first st.bit_data1 (st.bit_data2 % 8) fits.bit_data1,
            join_parts-second st.bit_data1 st.bit_data2 st.bit_data3 fits.bit_data1 fits.bit_data2,
            join_parts-third st.bit_data2 st.bit_data3 fits.bit_data2 fits.bit_data3,
          )
          refl

  -- Where `char` is signed, a second field with bit 2 set, as in every new student, is read as a
  -- number of 248 or more, and not as the field of 6 bits that it is.
  pub read_bit_fields-signed :
      st.bit_data2 / 4 % 2 ≡ 1
      → (t : Student) × (read_bit_fields true old s ≡ some t) × (248 ≤ t.bit_data2)
  read_bit_fields-signed top = (
    _,
    read_bit_fields-eq true front rest _ _ _ s h small old,
    join_parts-signed st.bit_data1 st.bit_data2 st.bit_data3 fits.bit_data1 fits.bit_data2 top,
  )
