-- ===== src/Net/Checksum/Sum.antt =====
-- The sum of a buffer's words without a bound, and that the 32-bit loop computes it.
use io_t_lab.Common.{
  ℕ, zero, suc, ◌+◌, ◌-◌, ◌*◌, ◌/◌, ◌%◌, ◌^◌, ◌≤◌, ◌<◌, ◌≡◌, List, [], ◌∷◌, arith, length, u16,
}
use io_t_lab.Net.Memory.{IsBytes, load16, store16}
use io_t_lab.Net.Checksum.{sum_loop, fold_once, checksum}

abbrev pub word_sum : List ℕ → ℕ
word_sum [] = 0
word_sum (lo ∷ []) = lo
word_sum (lo ∷ hi ∷ rest) = lo + 256 * hi + word_sum rest

pub word_sum-le : (buf : List ℕ) → IsBytes buf → 2 * word_sum buf ≤ 65535 * (length buf + 1)
word_sum-le [] h = omega arith
word_sum-le (lo ∷ []) h = omega arith
word_sum-le (lo ∷ hi ∷ rest) h = omega (arith, word_sum-le rest h.1.1)

sum_loop-eq-word_sum :
    (sum : ℕ) (buf : List ℕ) → sum + word_sum buf < 2 ^ 32 → sum_loop sum buf ≡ sum + word_sum buf
unfolding sum_loop
sum_loop-eq-word_sum sum [] h = omega arith
sum_loop-eq-word_sum sum (lo ∷ []) h = omega arith
sum_loop-eq-word_sum sum (lo ∷ hi ∷ rest) h =
    let e : (sum + (lo + 256 * hi)) % 2 ^ 32 ≡ sum + (lo + 256 * hi) = omega arith in
    rw e (omega (arith, sum_loop-eq-word_sum (sum + (lo + 256 * hi)) rest (omega arith)))

-- One fold of the carries, as a number.
abbrev pub folded : List ℕ → ℕ
folded buf = word_sum buf % 2 ^ 16 + word_sum buf / 2 ^ 16

pub checksum-eq-folded :
    (buf : List ℕ)
    → IsBytes buf
    → length buf ≤ 2 ^ 17
    → checksum buf ≡ u16 (2 ^ 32 - 1 - folded buf)
unfolding checksum fold_once
checksum-eq-folded buf h fits =
    let small = word_sum-le buf h in rw (sum_loop-eq-word_sum 0 buf (omega arith)) (omega arith)

-- The offset of the word with index `k`.
abbrev pub word_offset : ℕ → ℕ
word_offset zero = 0
word_offset (suc k) = suc (suc (word_offset k))

pub word_sum-store16 :
    (buf : List ℕ) (k v : ℕ)
    → suc (word_offset k) < length buf
    → v < 2 ^ 16
    → word_sum (store16 buf (word_offset k) v) + load16 buf (word_offset k) ≡ word_sum buf + v
word_sum-store16 [] k v fits small = absurd (omega arith)
word_sum-store16 (lo ∷ []) k v fits small = absurd (omega arith)
word_sum-store16 (lo ∷ hi ∷ rest) zero v fits small = omega arith
word_sum-store16 (lo ∷ hi ∷ rest) (suc k) v fits small =
    omega (arith, word_sum-store16 rest k v (omega arith) small)
