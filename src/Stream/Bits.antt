-- ===== src/Stream/Bits.antt =====
-- The bit fields of lab06/lib/MemoryStream.cpp, over all positions, widths and values.
use io_t_lab.Common.{
  ℕ, zero, suc, ◌+◌, ◌%◌, ◌^◌, ◌<◌, ◌≤◌, ◌≡◌, refl, Bool, true, false, ◌&&◌, ltb, ◌==◌,
  if◌then◌else◌, arith,
}
use native.Mathlib.Decide.{dec_le}
use io_t_lab.Stream.{first_part, second_part, whole_part, join_parts, inner_bits}

-- A test at every number below a bound.
unfoldable pub holds_below : ℕ → (ℕ → Bool) → Bool
holds_below zero ok = true
holds_below (suc n) ok = if ok n then holds_below n ok else false

pub holds_below_at :
    (n : ℕ) (ok : ℕ → Bool) → holds_below n ok ≡ true → (x : ℕ) → x < n → ok x ≡ true
unfolding holds_below
holds_below_at zero ok h x lt = absurd (omega arith)
holds_below_at (suc n) ok h x lt = elim (dec_le n x) [
  | yes top ↦ let last : x ≡ n = omega arith in rw last (ground arith)
  | no low ↦ holds_below_at n ok (ground arith) x (omega arith)
]

-- A field of `bits` bits at bit `at`, written behind lower bits `p`, is read back.
over_test : ℕ → ℕ → ℕ → ℕ → Bool
over_test at bits v p =
    (join_parts false at bits (first_part at v p) (second_part at v) == v)
    && ltb (first_part at v p) 256
    && ltb (second_part at v) (2 ^ ((at + bits) % 8))

within_test : ℕ → ℕ → ℕ → ℕ → Bool
within_test at bits v p =
    (inner_bits at bits (whole_part at v p) == v) && ltb (whole_part at v p) (2 ^ (at + bits))

bits_test : ℕ → ℕ → ℕ → ℕ → Bool
bits_test at bits v p = if ltb 7 (at + bits) then over_test at bits v p else within_test at bits v p

all_bits :
    holds_below 8 (λ at.
      holds_below 9
        (λ bits. holds_below (2 ^ bits) (λ v. holds_below (2 ^ at) (bits_test at bits v))))
    ≡ true
unfolding holds_below bits_test over_test within_test join_parts first_part second_part whole_part
    inner_bits
all_bits = refl

bits_test_at :
    (at bits v p : ℕ) → at < 8 → bits ≤ 8 → v < 2 ^ bits → p < 2 ^ at → bits_test at bits v p ≡ true
bits_test_at at bits v p ha hb hv hp =
    holds_below_at (2 ^ at) (bits_test at bits v)
      (holds_below_at (2 ^ bits) (λ v. holds_below (2 ^ at) (bits_test at bits v))
        (holds_below_at 9
          (λ bits. holds_below (2 ^ bits) (λ v. holds_below (2 ^ at) (bits_test at bits v)))
          (holds_below_at 8
            (λ at.
              holds_below 9
                (λ bits. holds_below (2 ^ bits) (λ v. holds_below (2 ^ at) (bits_test at bits v))))
            all_bits at ha)
          bits (omega arith))
        v hv)
      p hp

module _ (at bits v p : ℕ) (inside : at < 8) (narrow : bits ≤ 8) (small : v < 2 ^ bits)
    (lower : p < 2 ^ at) where
  -- A field that goes over the end of its byte is read back where `char` is unsigned, and its parts
  -- are a byte and a number below the new position's power of 2.
  pub join_parts-back :
      7 < at + bits
      → (join_parts false at bits (first_part at v p) (second_part at v) ≡ v)
        × (first_part at v p < 256)
        × (second_part at v < 2 ^ ((at + bits) % 8))
  unfolding bits_test over_test
  join_parts-back over = ground (arith, bits_test_at at bits v p inside narrow small lower)

  pub inner_bits-back :
      at + bits < 8
      → (inner_bits at bits (whole_part at v p) ≡ v) × (whole_part at v p < 2 ^ (at + bits))
  unfolding bits_test within_test
  inner_bits-back within = ground (arith, bits_test_at at bits v p inside narrow small lower)
