-- ===== src/Net/Checksum/Verify.antt =====
-- What a receiver computes (RFC 1071), and when it accepts a buffer that `checksum` filled in.
use io_t_lab.Common.{
  ℕ, suc, ◌+◌, ◌-◌, ◌*◌, ◌%◌, ◌^◌, ◌≤◌, ◌<◌, ◌≡◌, ◌↔◌, ◌⊎◌, inl, inr, refl, List, [], ◌∷◌, arith,
  length, ltb, ltb→lt, Bool-cases, if◌then◌else◌, u16,
}
use io_t_lab.Net.Memory.{IsBytes, load16, store16, store16-IsBytes}
use io_t_lab.Net.Checksum.{checksum}
use io_t_lab.Net.Checksum.Sum.{
  word_sum, word_sum-le, word_offset, word_sum-store16, folded, checksum-eq-folded,
}

-- Addition of 16-bit words with end-around carry.
pub ones_add : ℕ → ℕ → ℕ
ones_add a b = if ltb 65535 (a + b) then a + b - 65535 else a + b

pub ones_sum : List ℕ → ℕ
ones_sum [] = 0
ones_sum (lo ∷ []) = lo
ones_sum (lo ∷ hi ∷ rest) = ones_add (lo + 256 * hi) (ones_sum rest)

-- A receiver accepts when the ones' complement sum, checksum included, is all ones.
abbrev pub Accepts : List ℕ → Type 0
Accepts buf = ones_sum buf ≡ 65535

-- The end-around sum differs from the plain sum by a multiple of 65535, and is 0 only with it.
abbrev IsOnes : ℕ → ℕ → Type 0
IsOnes s n = (k : ℕ) × (s + 65535 * k ≡ n) × (s ≤ 65535) × ((0 < s) ⊎ (n ≡ 0))

ones_add-IsOnes : (w s n : ℕ) → w ≤ 65535 → IsOnes s n → IsOnes (ones_add w s) (w + n)
unfolding ones_add
ones_add-IsOnes w s n h (k, e, le, z) = elim (Bool-cases (ltb 65535 (w + s))) [
  | inl over ↦ rw (over) (
    suc k,
    omega (arith, ltb→lt _ _ over),
    omega (arith, ltb→lt _ _ over),
    inl (omega (arith, ltb→lt _ _ over)),
  )
  | inr under ↦ rw (under) (k, ground arith, ground arith, ground arith)
]

ones_sum-IsOnes : (buf : List ℕ) → IsBytes buf → IsOnes (ones_sum buf) (word_sum buf)
unfolding ones_sum
ones_sum-IsOnes [] h = (0, omega arith, omega arith, inr refl)
ones_sum-IsOnes (lo ∷ []) h = (0, omega arith, omega arith, ground arith)
ones_sum-IsOnes (lo ∷ hi ∷ rest) h =
    ones_add-IsOnes (lo + 256 * hi) (ones_sum rest) (word_sum rest) (omega arith)
      (ones_sum-IsOnes rest h.1.1)

pub Accepts-iff :
    (buf : List ℕ) → IsBytes buf → Accepts buf ↔ ((word_sum buf % 65535 ≡ 0) × (0 < word_sum buf))
Accepts-iff buf h = iff (ones_sum-IsOnes buf h)
  where
    iff :
        IsOnes (ones_sum buf) (word_sum buf)
        → Accepts buf ↔ ((word_sum buf % 65535 ≡ 0) × (0 < word_sum buf))
    iff (k, e, le, z) = (λ a. omega arith, λ (m, p). omega arith)

-- The sum that `buf` has once its word at index `k`, zero so far, is replaced by the checksum.
pub word_sum-filled :
    (buf : List ℕ) (k : ℕ)
    → IsBytes buf
    → length buf ≤ 2 ^ 17
    → suc (word_offset k) < length buf
    → load16 buf (word_offset k) ≡ 0
    → word_sum (store16 buf (word_offset k) (checksum buf))
      ≡ word_sum buf + u16 (2 ^ 32 - 1 - folded buf)
word_sum-filled buf k bytes fits inside zeroed =
    rw (checksum-eq-folded buf bytes fits)
      (omega (arith, word_sum-store16 buf k (u16 (2 ^ 32 - 1 - folded buf)) inside (omega arith)))

-- The field at word `k`, zero when `checksum` ran and then filled with its result, makes the
-- receiver accept the buffer exactly when the first fold of the carries leaves none.
pub checksum-Accepts_iff :
    (buf : List ℕ) (k : ℕ)
    → IsBytes buf
    → length buf ≤ 2 ^ 17
    → suc (word_offset k) < length buf
    → load16 buf (word_offset k) ≡ 0
    → Accepts (store16 buf (word_offset k) (checksum buf)) ↔ (folded buf < 2 ^ 16)
checksum-Accepts_iff buf k bytes fits inside zeroed =
    (λ a. omega (arith, filled, small, both.0 a), λ one. both.1 (omega (arith, filled, small)))
  where
    filled :
        word_sum (store16 buf (word_offset k) (checksum buf))
        ≡ word_sum buf + u16 (2 ^ 32 - 1 - folded buf)
    filled = word_sum-filled buf k bytes fits inside zeroed

    small : 2 * word_sum buf ≤ 65535 * (length buf + 1)
    small = word_sum-le buf bytes

    both : Accepts (store16 buf (word_offset k) (checksum buf)) ↔ (
        (word_sum (store16 buf (word_offset k) (checksum buf)) % 65535 ≡ 0)
        × (0 < word_sum (store16 buf (word_offset k) (checksum buf))))
    both = Accepts-iff _ (store16-IsBytes buf (word_offset k) (checksum buf) bytes)
