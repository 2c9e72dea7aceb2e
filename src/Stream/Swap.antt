-- ===== src/Stream/Swap.antt =====
-- lab06/include/ByteSwap.h: the order of the bytes of a number turned round. The parts that `|` joins
-- share no bit, and are added.
use io_t_lab.Common.{
  ℕ, ◌+◌, ◌*◌, ◌/◌, ◌%◌, ◌^◌, ◌<◌, ◌≡◌, refl, List, [], ◌∷◌, ◌++◌, Option, some, none, ◌==◌,
  if◌then◌else◌, arith,
}
use io_t_lab.Stream.{le_bytes}

unfoldable pub byte_swap2 : ℕ → ℕ
byte_swap2 v = v / 2 ^ 8 + v * 2 ^ 8 % 2 ^ 16

unfoldable pub byte_swap4 : ℕ → ℕ
byte_swap4 v =
    v / 2 ^ 24 % 256 + v / 2 ^ 16 % 256 * 2 ^ 8 + v / 2 ^ 8 % 256 * 2 ^ 16 + v % 256 * 2 ^ 24

unfoldable pub byte_swap8 : ℕ → ℕ
byte_swap8 v =
    v / 2 ^ 56 % 256
    + v / 2 ^ 48 % 256 * 2 ^ 8
    + v / 2 ^ 40 % 256 * 2 ^ 16
    + v / 2 ^ 32 % 256 * 2 ^ 24
    + v / 2 ^ 24 % 256 * 2 ^ 32
    + v / 2 ^ 16 % 256 * 2 ^ 40
    + v / 2 ^ 8 % 256 * 2 ^ 48
    + v % 256 * 2 ^ 56

-- `ByteSwap` of a type of `width` bytes; there is a `ByteSwapper` for four widths.
unfoldable pub byte_swap : ℕ → ℕ → Option ℕ
unfolding byte_swap2 byte_swap4 byte_swap8
byte_swap width v =
    if width == 1
    then some v
    else if width == 2
    then some (byte_swap2 v)
    else if width == 4
    then some (byte_swap4 v)
    else if width == 8
    then some (byte_swap8 v)
    else none

-- A width that the template is specialised for.
pub data Width : ℕ → Type 0 where
  one : Width 1
  two : Width 2
  four : Width 4
  eight : Width 8

abbrev pub reverse : List ℕ → List ℕ
reverse [] = []
reverse (x ∷ xs) = reverse xs ++ x ∷ []

-- For each width, swapping turns the bytes of a number round, and swapping again gives the number
-- back.
pub byte_swap-reverse :
    (width v : ℕ)
    → Width width
    → v < 256 ^ width
    → (w : ℕ) × (byte_swap width v ≡ some w)
      × (le_bytes width w ≡ reverse (le_bytes width v))
      × (byte_swap width w ≡ some v)
unfolding byte_swap byte_swap2 byte_swap4 byte_swap8
byte_swap-reverse width v one h = (v, refl, refl, refl)
byte_swap-reverse width v two h = (byte_swap2 v, refl, ground arith, ground arith)
byte_swap-reverse width v four h = (byte_swap4 v, refl, ground arith, ground arith)
byte_swap-reverse width v eight h = (byte_swap8 v, refl, ground arith, ground arith)
