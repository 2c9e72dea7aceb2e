-- ===== src/Student/BitFields.antt =====
-- The three bit fields of a student, as three bytes.
use Prim.Native.Nat.{bit_or}
use io_t_lab.Common.{
  ℕ, suc, ◌+◌, ◌*◌, ◌/◌, ◌%◌, ◌^◌, ◌<◌, ◌≤◌, ◌≡◌, ◌∙◌, refl, ap, ◌-◌, List, [], ◌∷◌, ◌++◌, some,
  arith, ◌==◌, ==_iff, Bool, true, false, length-append, take, take-append_at, u32,
}
use mathlib.Core.List.{append_assoc}
use io_t_lab.Stream.{
  OutputMemoryStream, garbage, first_part, second_part, whole_part, write_bits, get_length,
}
use io_t_lab.Stream.Bits.{holds_below, holds_below_at}
use io_t_lab.Stream.Partial.{Partial, write_bits-within, write_bits-over}
use io_t_lab.Student.{Student, write_bit_fields}

-- Bits 0-4, 5-10 and 11-18, lowest first.
abbrev pub bit_bytes : Student → List ℕ
bit_bytes st =
    (st.bit_data1 + 32 * (st.bit_data2 % 8))
    ∷ (st.bit_data2 / 8 + 8 * (st.bit_data3 % 32))
    ∷ st.bit_data3 / 32
    ∷ []

pub record FitsBits (st : Student) : Type 0 where
  pub bit_data1 : st.bit_data1 < 2 ^ 5
  pub bit_data2 : st.bit_data2 < 2 ^ 6
  pub bit_data3 : st.bit_data3 < 2 ^ 8

or_tests : ℕ → ℕ → ℕ → Bool
or_tests width low high = bit_or low (high * width) == low + width * high

-- Numbers that share no bit are added by `|`.
or_low5 : holds_below 32 (λ low. holds_below 8 (or_tests 32 low)) ≡ true
unfolding holds_below or_tests
or_low5 = refl

or_low3 : holds_below 8 (λ low. holds_below 32 (or_tests 8 low)) ≡ true
unfolding holds_below or_tests
or_low3 = refl

or5 : (low high : ℕ) → low < 32 → high < 8 → bit_or low (high * 32) ≡ low + 32 * high
unfolding or_tests
or5 low high a b = (==_iff _ _).0 (
    holds_below_at 8 (or_tests 32 low)
      (holds_below_at 32 (λ low. holds_below 8 (or_tests 32 low)) or_low5 low a) high b)

or3 : (low high : ℕ) → low < 8 → high < 32 → bit_or low (high * 8) ≡ low + 8 * high
unfolding or_tests
or3 low high a b = (==_iff _ _).0 (
    holds_below_at 32 (or_tests 8 low)
      (holds_below_at 8 (λ low. holds_below 32 (or_tests 8 low)) or_low3 low a) high b)

whole_zero : holds_below 32 (λ v. whole_part 0 v 0 == v) ≡ true
unfolding holds_below whole_part
whole_zero = refl

whole_part-zero : (v : ℕ) → v < 32 → whole_part 0 v 0 ≡ v
whole_part-zero v h = (==_iff _ _).0 (holds_below_at 32 (λ v. whole_part 0 v 0 == v) whole_zero v h)

first_part-5 : (v p : ℕ) → p < 32 → first_part 5 v p ≡ p + 32 * (v % 8)
unfolding first_part
first_part-5 v p h = or5 p (v % 8) h (omega arith)

first_part-3 : (v p : ℕ) → p < 8 → first_part 3 v p ≡ p + 8 * (v % 32)
unfolding first_part
first_part-3 v p h = or3 p (v % 32) h (omega arith)

second_part-5 : (v : ℕ) → second_part 5 v ≡ v / 8
unfolding second_part
second_part-5 v = refl

second_part-3 : (v : ℕ) → second_part 3 v ≡ v / 32
unfolding second_part
second_part-3 v = refl

parts-bit_bytes :
    (st : Student) (k0 k1 k2 : ℕ)
    → FitsBits st
    → k0 ≡ 0
    → k1 ≡ 5
    → k2 ≡ 3
    → first_part k1 st.bit_data2 (whole_part k0 st.bit_data1 0)
        ∷ first_part k2 st.bit_data3 (second_part k1 st.bit_data2)
        ∷ second_part k2 st.bit_data3
        ∷ []
      ≡ bit_bytes st
parts-bit_bytes st k0 k1 k2 fits e0 e1 e2 =
    rw
      (
        e0,
        e1,
        e2,
        whole_part-zero st.bit_data1 fits.bit_data1,
        first_part-5 st.bit_data2 st.bit_data1 fits.bit_data1,
        second_part-5,
        second_part-3,
        first_part-3 st.bit_data3 (st.bit_data2 / 8) (omega (arith, fits.bit_data2)),
      )
      refl

-- The byte that is not full yet is sent too.
last_byte :
    (fresh : ℕ → ℕ) (bytes : List ℕ) (p : ℕ) (t : OutputMemoryStream)
    → Partial fresh bytes p t
    → 0 < t.bit_head
    → t.head + 1 < 2 ^ 32
    → take (get_length t) t.buffer ≡ bytes ++ p ∷ []
unfolding get_length
last_byte fresh bytes p t h inside small =
    let partly : (t.bit_head == 0) ≡ false = ground arith in
    let wide : u32 (t.head + 1) ≡ t.head + 1 = omega arith in
    let rest = garbage fresh (suc t.head) (t.capacity - suc t.head) in
    rw (partly, wide, h.layout, ← append_assoc bytes (p ∷ []) rest)
      (take-append_at (t.head + 1) (bytes ++ p ∷ []) rest
        (omega (arith, h.headed, length-append bytes (p ∷ []))))

three : (bytes : List ℕ) (a b c : ℕ) → bytes ++ a ∷ [] ++ b ∷ [] ++ c ∷ [] ≡ bytes ++ a ∷ b ∷ c ∷ []
three bytes a b c =
    append_assoc (bytes ++ a ∷ []) (b ∷ []) (c ∷ []) ∙ append_assoc bytes (a ∷ []) (b ∷ c ∷ [])

write_bit_fields-eq :
    (fresh : ℕ → ℕ) (st : Student) (s s1 s2 s3 : OutputMemoryStream)
    → write_bits fresh st.bit_data1 5 s ≡ some s1
    → write_bits fresh st.bit_data2 6 s1 ≡ some s2
    → write_bits fresh st.bit_data3 8 s2 ≡ some s3
    → write_bit_fields fresh st s ≡ some s3
unfolding write_bit_fields
write_bit_fields-eq fresh st s s1 s2 s3 a b c = rw (a, b) c

module _ (fresh : ℕ → ℕ) (st : Student) (fits : FitsBits st) (bytes : List ℕ)
    (s : OutputMemoryStream) (h : Partial fresh bytes 0 s) (start : s.bit_head ≡ 0)
    (room : s.head + 3 ≤ s.capacity) (modest : s.capacity < 2 ^ 31) where
  -- With room for three bytes, the bits are appended as three bytes, and the stream's length counts
  -- the last of them.
  pub write_bit_fields-bytes :
      (t : OutputMemoryStream) × (write_bit_fields fresh st s ≡ some t)
      × (take (get_length t) t.buffer ≡ bytes ++ bit_bytes st)
  write_bit_fields-bytes =
      let (s1, r1, h1, at1, head1, cap1) =
        write_bits-within fresh bytes 0 st.bit_data1 5 s h (omega arith) fits.bit_data1
          (omega arith) in
      let (s2, r2, h2, at2, head2, cap2) =
        write_bits-over fresh bytes _ st.bit_data2 6 s1 h1 (omega arith) fits.bit_data2
          (omega arith) (omega arith) (omega arith) in
      let (s3, r3, h3, at3, head3, cap3) =
        write_bits-over fresh _ _ st.bit_data3 8 s2 h2 (omega arith) fits.bit_data3 (omega arith)
          (omega arith) (omega arith) in
      (
        s3,
        write_bit_fields-eq fresh st s s1 s2 s3 r1 r2 r3,
        last_byte fresh _ _ s3 h3 (omega (arith, at1, at2, at3))
              (omega (arith, head1, head2, head3, cap1))
            ∙ three bytes _ _ _
            ∙ ap (λ b. bytes ++ b)
                (parts-bit_bytes st s.bit_head s1.bit_head s2.bit_head fits start (omega arith)
                  (omega (arith, at1, at2))),
      )
