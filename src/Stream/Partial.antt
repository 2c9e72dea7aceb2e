-- ===== src/Stream/Partial.antt =====
-- What the output stream of lab06/lib/MemoryStream.cpp holds after bits were written.
use io_t_lab.Common.{
  ℕ, suc, ◌+◌, ◌-◌, ◌%◌, ◌^◌, ◌<◌, ◌≤◌, ◌≡◌, ◌∙◌, refl, sym, ap, List, [], ◌∷◌, ◌++◌, some, arith,
  ltb, true, false, length, length-append, get_elem?-append_at, set-append_at, u32,
}
use mathlib.Core.List.{append_assoc}
use io_t_lab.Stream.{
  OutputMemoryStream, garbage, make_room, first_part, second_part, whole_part, put_byte, write_over,
  write_within, write_bits,
}
use io_t_lab.Stream.Bits.{join_parts-back, inner_bits-back}
use io_t_lab.Stream.Output.{Holds}

put_byte-at :
    (n : ℕ) (xs ys : List ℕ) (y v : ℕ)
    → length xs ≡ n
    → put_byte n v (xs ++ y ∷ ys) ≡ some (xs ++ v ∷ ys)
unfolding put_byte
put_byte-at n xs ys y v e =
    let inside : ltb n (length (xs ++ y ∷ ys)) ≡ true = ground (arith, length-append xs (y ∷ ys)) in
    rw (inside, set-append_at n xs ys y v e) refl

module _ (fresh : ℕ → ℕ) where
  -- The stream holds these bytes, then the lower `bit_head` bits of `p`.
  pub record Partial (bytes : List ℕ) (p : ℕ) (s : OutputMemoryStream) : Type 0 where
    pub layout : s.buffer ≡ bytes ++ p ∷ garbage fresh (suc s.head) (s.capacity - suc s.head)
    pub headed : s.head ≡ length bytes
    pub within : s.head < s.capacity
    pub aligned : s.bit_head < 8
    pub lower : p < 2 ^ s.bit_head

  -- Between bytes, the next byte has to be 0: it was never written.
  pub Holds-Partial :
      (bytes : List ℕ) (s : OutputMemoryStream)
      → Holds fresh bytes s
      → s.bit_head ≡ 0
      → s.head < s.capacity
      → fresh s.head ≡ 0
      → Partial bytes 0 s
  Holds-Partial bytes s h start room clean =
      let more : s.capacity - s.head ≡ suc (s.capacity - suc s.head) = omega arith in
      record {
        layout =
            h.layout
            ∙ ap (λ n. bytes ++ garbage fresh s.head n) more
            ∙ ap (λ b. bytes ++ b ∷ garbage fresh (suc s.head) (s.capacity - suc s.head)) clean;
        headed = h.headed;
        within = room;
        aligned = omega arith;
        lower = rw start (omega arith);
      }

  module _ (bytes : List ℕ) (p v bits : ℕ) (s : OutputMemoryStream) (h : Partial bytes p s)
      (narrow : bits ≤ 8) (small : v < 2 ^ bits) where
    pub write_bits-within :
        s.bit_head + bits < 8
        → (t : OutputMemoryStream) × (write_bits fresh v bits s ≡ some t)
          × Partial bytes (whole_part s.bit_head v p) t
          × (t.bit_head ≡ s.bit_head + bits)
          × (t.head ≡ s.head)
          × (t.capacity ≡ s.capacity)
    unfolding write_bits write_within
    write_bits-within fits =
        let rest = garbage fresh (suc s.head) (s.capacity - suc s.head) in
        let w = whole_part s.bit_head v p in
        let test : ltb 7 (s.bit_head + bits) ≡ false = ground arith in
        let mod8 : (s.bit_head + bits) % 8 ≡ s.bit_head + bits = omega arith in
        let back = inner_bits-back s.bit_head bits v p h.aligned narrow small h.lower fits in
        (
          record s { buffer = bytes ++ w ∷ rest; bit_head = s.bit_head + bits },
          rw
              (
                test,
                h.layout,
                get_elem?-append_at s.head bytes rest p (sym h.headed),
                put_byte-at s.head bytes rest p w (sym h.headed),
                mod8,
              )
              refl,
          record {
            layout = refl;
            headed = h.headed;
            within = h.within;
            aligned = fits;
            lower = back.1;
          },
          refl,
          refl,
          refl,
        )

    pub write_bits-over :
        7 < s.bit_head + bits
        → suc s.head < s.capacity
        → s.capacity < 2 ^ 31
        → (t : OutputMemoryStream) × (write_bits fresh v bits s ≡ some t)
          × Partial (bytes ++ first_part s.bit_head v p ∷ []) (second_part s.bit_head v) t
          × (t.bit_head ≡ (s.bit_head + bits) % 8)
          × (t.head ≡ suc s.head)
          × (t.capacity ≡ s.capacity)
    unfolding write_bits write_over make_room
    write_bits-over over room modest =
        let n = s.head in
        let rest = garbage fresh (suc (suc n)) (s.capacity - suc (suc n)) in
        let a = first_part s.bit_head v p in
        let b = second_part s.bit_head v in
        let test : ltb 7 (s.bit_head + bits) ≡ true = ground arith in
        let next : u32 (n + 1) ≡ suc n = omega arith in
        let enough : ltb s.capacity (suc n) ≡ false = ground arith in
        let back = join_parts-back s.bit_head bits v p h.aligned narrow small h.lower over in
        let more : s.capacity - suc n ≡ suc (s.capacity - suc (suc n)) = omega arith in
        let layout : s.buffer ≡ bytes ++ p ∷ fresh (suc n) ∷ rest =
          h.layout ∙ ap (λ k. bytes ++ p ∷ garbage fresh (suc n) k) more in
        let here : length bytes ≡ n = sym h.headed in
        let there : length (bytes ++ a ∷ []) ≡ suc n =
          omega (arith, length-append bytes (a ∷ []), here) in
        let put : put_byte (suc n) b (bytes ++ a ∷ fresh (suc n) ∷ rest)
            ≡ some ((bytes ++ a ∷ []) ++ b ∷ rest) =
          ap (put_byte (suc n) b) (sym (append_assoc bytes (a ∷ []) (fresh (suc n) ∷ rest)))
          ∙ put_byte-at (suc n) (bytes ++ a ∷ []) rest (fresh (suc n)) b there in
        (
          record s {
            buffer = (bytes ++ a ∷ []) ++ b ∷ rest;
            head = suc n;
            bit_head = (s.bit_head + bits) % 8;
          },
          rw
              (
                test,
                next,
                enough,
                layout,
                get_elem?-append_at n bytes (fresh (suc n) ∷ rest) p here,
                put_byte-at n bytes (fresh (suc n) ∷ rest) p a here,
                put,
              )
              refl,
          record {
            layout = refl;
            headed = sym there;
            within = room;
            aligned = omega arith;
            lower = back.2;
          },
          refl,
          refl,
          refl,
        )
