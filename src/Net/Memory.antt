-- ===== src/Net/Memory.antt =====
-- Loads and stores of 16- and 32-bit words in a byte buffer, on a little-endian machine: what
-- `*(uint16_t *)(buffer + off)` and the fields of an overlaid struct read and write.
use native.Mathlib.Nat.{zero-add}
use io_t_lab.Common.{
  ℕ, zero, suc, ◌+◌, ◌*◌, ◌/◌, ◌%◌, ◌^◌, ◌<◌, ◌≤◌, ◌≡◌, ◌∙◌, ◌≢◌, ◌⊎◌, refl, ap, List, [], ◌∷◌,
  ◌++◌, take, drop, arith, get_or, set, length, All, All-set, length-set, get_or-set_self,
  get_or-set_ne,
}

abbrev pub IsByte : ℕ → Type 0
IsByte b = b < 256

abbrev pub IsBytes : List ℕ → Type 0
IsBytes = All IsByte

abbrev pub load8 : List ℕ → ℕ → ℕ
load8 buf off = get_or buf off 0

abbrev pub load16 : List ℕ → ℕ → ℕ
load16 buf off = load8 buf off + 256 * load8 buf (suc off)

abbrev pub load32 : List ℕ → ℕ → ℕ
load32 buf off = load16 buf off + 2 ^ 16 * load16 buf (suc (suc off))

abbrev pub store8 : List ℕ → ℕ → ℕ → List ℕ
store8 buf off v = set buf off (v % 256)

abbrev pub store16 : List ℕ → ℕ → ℕ → List ℕ
store16 buf off v = store8 (store8 buf off v) (suc off) (v / 256)

abbrev pub store32 : List ℕ → ℕ → ℕ → List ℕ
store32 buf off v = store16 (store16 buf off v) (suc (suc off)) (v / 2 ^ 16)

pub length-store16 : (buf : List ℕ) (off v : ℕ) → length (store16 buf off v) ≡ length buf
length-store16 buf off v = length-set (set buf off _) (suc off) _ ∙ length-set buf off _

pub length-store32 : (buf : List ℕ) (off v : ℕ) → length (store32 buf off v) ≡ length buf
length-store32 buf off v = length-store16 _ _ _ ∙ length-store16 buf off v

pub store16-IsBytes : (buf : List ℕ) (off v : ℕ) → IsBytes buf → IsBytes (store16 buf off v)
store16-IsBytes buf off v h =
    All-set IsByte _ (suc off) _ (omega arith) (All-set IsByte buf off _ (omega arith) h)

pub store32-IsBytes : (buf : List ℕ) (off v : ℕ) → IsBytes buf → IsBytes (store32 buf off v)
store32-IsBytes buf off v h = store16-IsBytes _ _ _ (store16-IsBytes buf off v h)

pub load8-lt : (buf : List ℕ) (off : ℕ) → IsBytes buf → load8 buf off < 256
load8-lt [] off h = omega arith
load8-lt (b ∷ bs) zero h = h.0
load8-lt (b ∷ bs) (suc off) h = load8-lt bs off h.1

-- A byte that a store does not cover stays.
pub load8-store16_ne :
    (buf : List ℕ) (off v j : ℕ) → off ≢ j → suc off ≢ j → load8 (store16 buf off v) j ≡ load8 buf j
load8-store16_ne buf off v j p q =
    get_or-set_ne (set buf off _) (suc off) j _ 0 q ∙ get_or-set_ne buf off j _ 0 p

-- What is stored is read back.
pub load16-store16 :
    (buf : List ℕ) (off v : ℕ)
    → suc off < length buf
    → v < 2 ^ 16
    → load16 (store16 buf off v) off ≡ v
load16-store16 buf off v fits small = omega (
  arith,
  get_or-set_ne (set buf off (v % 256)) (suc off) off (v / 256 % 256) 0 (omega arith),
  get_or-set_self buf off (v % 256) 0 (omega arith),
  get_or-set_self (set buf off (v % 256)) (suc off) (v / 256 % 256) 0
      (omega (arith, length-set buf off (v % 256))),
)

pub load16-store16_ne :
    (buf : List ℕ) (off v j : ℕ)
    → (suc off < j) ⊎ (suc j < off)
    → load16 (store16 buf off v) j ≡ load16 buf j
load16-store16_ne buf off v j apart = omega (
  arith,
  load8-store16_ne buf off v j (omega arith) (omega arith),
  load8-store16_ne buf off v (suc j) (omega arith) (omega arith),
)

pub load32-store16_ne :
    (buf : List ℕ) (off v j : ℕ)
    → (suc off < j) ⊎ (suc (suc (suc j)) < off)
    → load32 (store16 buf off v) j ≡ load32 buf j
load32-store16_ne buf off v j apart = omega (
  arith,
  load16-store16_ne buf off v j (omega arith),
  load16-store16_ne buf off v (suc (suc j)) (omega arith),
)

pub load32-store32_ne :
    (buf : List ℕ) (off v j : ℕ)
    → (suc (suc (suc off)) < j) ⊎ (suc (suc (suc j)) < off)
    → load32 (store32 buf off v) j ≡ load32 buf j
load32-store32_ne buf off v j apart =
    load32-store16_ne (store16 buf off v) (suc (suc off)) (v / 2 ^ 16) j (omega arith)
    ∙ load32-store16_ne buf off v j (omega arith)

-- Only the low 16 bits of a value are stored.
pub load16-store16_mod :
    (buf : List ℕ) (off v : ℕ) → suc off < length buf → load16 (store16 buf off v) off ≡ v % 2 ^ 16
load16-store16_mod buf off v fits = omega (
  arith,
  get_or-set_ne (set buf off (v % 256)) (suc off) off (v / 256 % 256) 0 (omega arith),
  get_or-set_self buf off (v % 256) 0 (omega arith),
  get_or-set_self (set buf off (v % 256)) (suc off) (v / 256 % 256) 0
      (omega (arith, length-set buf off (v % 256))),
)

pub load32-store32 :
    (buf : List ℕ) (off v : ℕ)
    → suc (suc (suc off)) < length buf
    → v < 2 ^ 32
    → load32 (store32 buf off v) off ≡ v
load32-store32 buf off v fits small = omega (
  arith,
  load16-store16_ne (store16 buf off v) (suc (suc off)) (v / 2 ^ 16) off (omega arith),
  load16-store16_mod buf off v (omega arith),
  load16-store16_mod (store16 buf off v) (suc (suc off)) (v / 2 ^ 16)
      (omega (arith, length-store16 buf off v)),
)

-- A store seen through a part of the buffer.
pub drop-set : (k : ℕ) (xs : List ℕ) (i v : ℕ) → drop k (set xs (k + i) v) ≡ set (drop k xs) i v
drop-set zero xs i v = rw zero-add refl
drop-set (suc k) [] i v = refl
drop-set (suc k) (x ∷ xs) i v =
    let e : suc k + i ≡ suc (k + i) = omega arith in rw e (drop-set k xs i v)

pub drop-set_below : (k : ℕ) (xs : List ℕ) (i v : ℕ) → i < k → drop k (set xs i v) ≡ drop k xs
drop-set_below zero xs i v h = absurd (omega arith)
drop-set_below (suc k) [] i v h = refl
drop-set_below (suc k) (x ∷ xs) zero v h = refl
drop-set_below (suc k) (x ∷ xs) (suc i) v h = drop-set_below k xs i v (omega arith)

pub take-set : (n : ℕ) (xs : List ℕ) (i v : ℕ) → take n (set xs i v) ≡ set (take n xs) i v
take-set zero xs i v = refl
take-set (suc n) [] i v = refl
take-set (suc n) (x ∷ xs) zero v = refl
take-set (suc n) (x ∷ xs) (suc i) v = ap (◌∷◌ x) (take-set n xs i v)

pub append-set : (xs ys : List ℕ) (i v : ℕ) → xs ++ set ys i v ≡ set (xs ++ ys) (length xs + i) v
append-set [] ys i v = rw zero-add refl
append-set (x ∷ xs) ys i v =
    let e : suc (length xs) + i ≡ suc (length xs + i) = omega arith in
    rw e (ap (◌∷◌ x) (append-set xs ys i v))

pub take-set_above : (n : ℕ) (xs : List ℕ) (i v : ℕ) → n ≤ i → take n (set xs i v) ≡ take n xs
take-set_above zero xs i v h = refl
take-set_above (suc n) [] i v h = refl
take-set_above (suc n) (x ∷ xs) zero v h = absurd (omega arith)
take-set_above (suc n) (x ∷ xs) (suc i) v h = ap (◌∷◌ x) (take-set_above n xs i v (omega arith))

pub load8-take : (n : ℕ) (xs : List ℕ) (i : ℕ) → i < n → load8 (take n xs) i ≡ load8 xs i
load8-take zero xs i h = absurd (omega arith)
load8-take (suc n) [] i h = refl
load8-take (suc n) (x ∷ xs) zero h = refl
load8-take (suc n) (x ∷ xs) (suc i) h = load8-take n xs i (omega arith)

pub load8-drop : (k : ℕ) (xs : List ℕ) (i : ℕ) → load8 (drop k xs) i ≡ load8 xs (k + i)
load8-drop zero xs i = rw zero-add refl
load8-drop (suc k) [] i = refl
load8-drop (suc k) (x ∷ xs) i =
    let e : suc k + i ≡ suc (k + i) = omega arith in rw e (load8-drop k xs i)

pub load8-append : (xs ys : List ℕ) (i : ℕ) → load8 (xs ++ ys) (length xs + i) ≡ load8 ys i
load8-append [] ys i = rw zero-add refl
load8-append (x ∷ xs) ys i =
    let e : suc (length xs) + i ≡ suc (length xs + i) = omega arith in rw e (load8-append xs ys i)

-- A stored word seen through a part of the buffer.
pub take-store16 :
    (n : ℕ) (xs : List ℕ) (i v : ℕ) → take n (store16 xs i v) ≡ store16 (take n xs) i v
take-store16 n xs i v =
    take-set n (store8 xs i v) (suc i) _
    ∙ ap (λ t. set t (suc i) (v / 256 % 256)) (take-set n xs i _)

pub take-store16_above :
    (n : ℕ) (xs : List ℕ) (i v : ℕ) → n ≤ i → take n (store16 xs i v) ≡ take n xs
take-store16_above n xs i v h =
    take-set_above n (store8 xs i v) (suc i) _ (omega arith) ∙ take-set_above n xs i _ h

pub drop-store16_below :
    (k : ℕ) (xs : List ℕ) (i v : ℕ) → suc i < k → drop k (store16 xs i v) ≡ drop k xs
drop-store16_below k xs i v h =
    drop-set_below k (store8 xs i v) (suc i) _ h ∙ drop-set_below k xs i _ (omega arith)

pub drop-store16 :
    (k : ℕ) (xs : List ℕ) (i v : ℕ) → drop k (store16 xs (k + i) v) ≡ store16 (drop k xs) i v
drop-store16 k xs i v =
    let e : suc (k + i) ≡ k + suc i = omega arith in
    rw e (
      drop-set k (store8 xs (k + i) v) (suc i) _
      ∙ ap (λ t. set t (suc i) (v / 256 % 256)) (drop-set k xs i _))

pub append-store16 :
    (xs ys : List ℕ) (i v : ℕ) → xs ++ store16 ys i v ≡ store16 (xs ++ ys) (length xs + i) v
append-store16 xs ys i v =
    let e : suc (length xs + i) ≡ length xs + suc i = omega arith in
    rw e (
      append-set xs (store8 ys i v) (suc i) _
      ∙ ap (λ t. set t (length xs + suc i) (v / 256 % 256)) (append-set xs ys i _))
