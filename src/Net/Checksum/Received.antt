-- ===== src/Net/Checksum/Received.antt =====
-- What the receiver of a TCP segment sums, by RFC 9293, 3.1, read in the packet itself.
use io_t_lab.Common.{
  suc, ℕ, ◌+◌, ◌*◌, ◌-◌, ◌/◌, ◌%◌, ◌^◌, ◌≤◌, ◌≡◌, ◌∙◌, refl, ap, ap₂, List, [], ◌∷◌, ◌++◌, arith,
  length, take, drop, length-drop, All-drop,
}
use io_t_lab.Net.Memory.{IsByte, IsBytes, load8, load32, load8-drop}

-- The length of the segment: the total length less an IP header of 20 bytes.
abbrev pub segment_length : List ℕ → ℕ
segment_length p = 256 * load8 p 2 + load8 p 3 - 20

-- The addresses, a zero byte, the number of TCP, the segment's length, and the segment.
abbrev pub tcp_received : List ℕ → List ℕ
tcp_received p =
    take 4 (drop 12 p)
    ++ take 4 (drop 16 p)
    ++ 0 ∷ 6 ∷ segment_length p / 256 ∷ segment_length p % 256 ∷ []
    ++ take (segment_length p) (drop 20 p)

-- The four bytes of a word in memory.
abbrev pub word_bytes : ℕ → List ℕ
word_bytes v = v % 256 ∷ v / 256 % 256 ∷ v / 2 ^ 16 % 256 ∷ v / 2 ^ 16 / 256 % 256 ∷ []

take-load32 : (xs : List ℕ) → IsBytes xs → 4 ≤ length xs → take 4 xs ≡ word_bytes (load32 xs 0)
take-load32 [] h l = absurd (omega arith)
take-load32 (a ∷ []) h l = absurd (omega arith)
take-load32 (a ∷ b ∷ []) h l = absurd (omega arith)
take-load32 (a ∷ b ∷ c ∷ []) h l = absurd (omega arith)
take-load32 (a ∷ b ∷ c ∷ d ∷ rest) h l =
    ap₂ ◌∷◌ (omega arith)
      (ap₂ ◌∷◌ (omega arith) (ap₂ ◌∷◌ (omega arith) (ap₂ ◌∷◌ (omega arith) refl)))

pub take-drop-load32 :
    (k : ℕ) (xs : List ℕ)
    → IsBytes xs
    → k + 4 ≤ length xs
    → take 4 (drop k xs) ≡ word_bytes (load32 xs k)
take-drop-load32 k xs h l =
    let start : k + 0 ≡ k = omega arith in
    let second : k + 1 ≡ suc k = omega arith in
    let third : k + 2 ≡ suc (suc k) = omega arith in
    let last : k + 3 ≡ suc (suc (suc k)) = omega arith in
    take-load32 (drop k xs) (All-drop IsByte k xs h) (omega (arith, length-drop k xs))
    ∙ ap word_bytes (
        omega (
          arith,
          ap (load8 xs) start,
          ap (load8 xs) second,
          ap (load8 xs) third,
          ap (load8 xs) last,
          load8-drop k xs 0,
          load8-drop k xs 1,
          load8-drop k xs 2,
          load8-drop k xs 3,
        ))
