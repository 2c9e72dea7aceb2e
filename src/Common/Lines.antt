-- ===== src/Common/Lines.antt =====
-- Lines typed at a program, and how `fgets` reads them.
use Prim.Native.Nat.{ℕ, zero, suc, ◌+◌, ◌<◌, ◌≤◌}
use mathlib.Core.Path.{◌≡◌, refl, ap, ◌∙◌}
use mathlib.Core.Logic.{◌≢◌}
use mathlib.Core.Bool.{Bool, true, false, ◌&&◌}
use mathlib.Core.List.{List, [], ◌∷◌, ◌++◌, map}
use native.Mathlib.Omega.{arith}
use io_t_lab.Common.Tests.{◌==◌, if◌then◌else◌}
use io_t_lab.Common.Arrays.{All, All-append, concat, length, length-append}
use io_t_lab.Common.Strings.{IsText, c_string, c_string-IsText, fgets}

abbrev pub is_line : ℕ → List ℕ → Bool
is_line c (a ∷ b ∷ []) = a == c && b == 10
is_line c line = false

-- `strcmp` with "q\n" and "Q\n".
abbrev pub is_quit : List ℕ → Bool
is_quit line = if is_line 113 line then true else is_line 81 line

-- Lines with their ends.
abbrev pub lines_of : List (List ℕ) → List ℕ
lines_of texts = concat (map (λ t. t ++ 10 ∷ []) texts)

pub fgets-text :
    (n : ℕ) (text rest : List ℕ)
    → All (λ b. b ≢ 10) text
    → length text ≤ n
    → fgets (suc (suc n)) (text ++ 10 ∷ rest) ≡ (text ++ 10 ∷ [], rest)
fgets-text n [] rest a h = refl
fgets-text zero (b ∷ bs) rest a h = absurd (omega arith)
fgets-text (suc n) (b ∷ bs) rest a h =
    let ih = fgets-text n bs rest a.1 (omega arith) in
    let not_eol : (b == 10) ≡ false = ground arith in rw not_eol (ap (λ r. (b ∷ r.0, r.1)) ih)

pub length-lines_of :
    (t : List ℕ) (ts : List (List ℕ))
    → length (lines_of (t ∷ ts)) ≡ length t + 1 + length (lines_of ts)
length-lines_of t ts =
    length-append (t ++ 10 ∷ []) (lines_of ts)
    ∙ ap (◌+ length (lines_of ts)) (length-append t (10 ∷ []))

-- A line of at most n bytes and its end that can be typed: it has neither a newline nor a NUL inside,
-- and is not the one that quits.
pub record IsLine (n : ℕ) (text : List ℕ) : Type 0 where
  pub no_end : All (λ b. b ≢ 10) text
  pub no_nul : IsText text
  pub short : length text ≤ n
  pub stays : is_quit (text ++ 10 ∷ []) ≡ false

pub line-IsText : (text : List ℕ) → IsText text → IsText (text ++ 10 ∷ [])
line-IsText text h = All-append (λ b. 0 < b) text (10 ∷ []) h (omega arith, tt)

-- What `msg` holds after `fgets` of n + 2 bytes.
pub c_string-fgets :
    (n : ℕ) (text rest : List ℕ)
    → IsLine n text
    → (c_string (fgets (suc (suc n)) (text ++ 10 ∷ rest)).0 ≡ text ++ 10 ∷ [])
      × ((fgets (suc (suc n)) (text ++ 10 ∷ rest)).1 ≡ rest)
c_string-fgets n text rest line =
    let read = fgets-text n text rest line.no_end line.short in
    (rw read (c_string-IsText (text ++ 10 ∷ []) (line-IsText text line.no_nul)), rw read refl)
