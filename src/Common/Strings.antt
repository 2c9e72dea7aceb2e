-- ===== src/Common/Strings.antt =====
-- C strings and lines: a string is the list of its bytes, up to its NUL.
use Prim.Native.Nat.{ℕ, zero, suc, ◌<◌}
use mathlib.Core.Path.{◌≡◌, refl}
use mathlib.Core.List.{List, [], ◌∷◌, ◌++◌}
use native.Mathlib.Omega.{arith}
use io_t_lab.Common.Tests.{◌==◌, if◌then◌else◌}
use io_t_lab.Common.Arrays.{All}

-- `strlen` and `%s`: a string ends before its first NUL.
abbrev pub c_string : List ℕ → List ℕ
c_string [] = []
c_string (b ∷ bs) = let rest = c_string bs in if b == 0 then [] else b ∷ rest

-- A text with no NUL in it.
abbrev pub IsText : List ℕ → Type 0
IsText = All (λ b. 0 < b)

pub c_string-append : (text rest : List ℕ) → IsText text → c_string (text ++ 0 ∷ rest) ≡ text
c_string-append [] rest h = refl
c_string-append (b ∷ bs) rest h = rw (c_string-append bs rest h.1) (ground arith)

pub c_string-IsText : (text : List ℕ) → IsText text → c_string text ≡ text
c_string-IsText [] h = refl
c_string-IsText (b ∷ bs) h = ground (arith, c_string-IsText bs h.1)

-- `fgets` with a buffer of n bytes: up to n - 1 bytes of the input, to the end of the line, and what
-- is left of the input.
abbrev pub fgets : ℕ → List ℕ → List ℕ × List ℕ
fgets zero input = ([], input)
fgets (suc zero) input = ([], input)
fgets (suc (suc n)) [] = ([], [])
fgets (suc (suc n)) (b ∷ bs) =
    let rest = fgets (suc n) bs in if b == 10 then (b ∷ [], bs) else (b ∷ rest.0, rest.1)
