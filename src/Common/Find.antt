-- ===== src/Common/Find.antt =====
-- Searches in lists, and writes that meet in one slot.
use Prim.Native.Nat.{ℕ, zero, suc, ◌≤◌, ◌<◌}
use mathlib.Core.Path.{◌≡◌, refl, ap}
use mathlib.Core.Logic.{inl, inr}
use mathlib.Core.List.{List, [], ◌∷◌}
use mathlib.Core.Option.{none, some}
use mathlib.Core.Bool.{Bool, true, false}
use native.Mathlib.Omega.{arith}
use io_t_lab.Common.Tests.{Bool-cases, Option-cases}
use io_t_lab.Common.Arrays.{get_elem?, set, find_index}

module _ {ℓ} {A : Type ℓ} where
  -- A search returns the first index whose element passes.
  pub find_index_sound :
      (p : A → Bool) (xs : List A) (i : ℕ)
      → find_index p xs ≡ some i
      → (x : A) × (get_elem? xs i ≡ some x) × (p x ≡ true)
  find_index_sound p [] i e = ground arith
  find_index_sound p (x ∷ xs) zero e = elim (Bool-cases (p x)) [
    | inl hit ↦ (x, refl, hit)
    | inr miss ↦ elim (Option-cases (find_index p xs)) [
      | inl nothing ↦ absurd (ground arith)
      | inr (k, found) ↦ absurd (ground arith)
    ]
  ]
  find_index_sound p (x ∷ xs) (suc i) e = find_index_sound p xs i (ground arith)

  pub find_index-first :
      (p : A → Bool) (xs : List A) (i j : ℕ) {x : A}
      → find_index p xs ≡ some i
      → j < i
      → get_elem? xs j ≡ some x
      → p x ≡ false
  find_index-first p [] i j e h g = ground arith
  find_index-first p (y ∷ ys) zero j e h g = absurd (omega arith)
  find_index-first p (y ∷ ys) (suc i) zero e h g = ground arith
  find_index-first p (y ∷ ys) (suc i) (suc j) e h g =
      find_index-first p ys i j (ground arith) (omega arith) g

  pub find_index-none :
      (p : A → Bool) (xs : List A) (j : ℕ) {x : A}
      → find_index p xs ≡ none
      → get_elem? xs j ≡ some x
      → p x ≡ false
  find_index-none p [] j e g = ground arith
  find_index-none p (y ∷ ys) zero e g = ground arith
  find_index-none p (y ∷ ys) (suc j) e g = find_index-none p ys j (ground arith) g

  pub find_index-hit :
      (p : A → Bool) (xs : List A) (i : ℕ) {x : A}
      → get_elem? xs i ≡ some x
      → p x ≡ true
      → (k : ℕ) × (find_index p xs ≡ some k) × (k ≤ i)
  find_index-hit p [] i e h = absurd (ground arith)
  find_index-hit p (y ∷ ys) zero e h = (0, ground arith, omega arith)
  find_index-hit p (y ∷ ys) (suc i) e h = elim (Bool-cases (p y)) [
    | inl now ↦ (0, rw now refl, omega arith)
    | inr later ↦ later_hit later (find_index-hit p ys i e h)
  ]
    where
      later_hit :
          p y ≡ false
          → ((k : ℕ) × (find_index p ys ≡ some k) × (k ≤ i))
          → (k : ℕ) × (find_index p (y ∷ ys) ≡ some k) × (k ≤ suc i)
      later_hit later (k, found, le) = (suc k, rw (later, found) refl, omega arith)

  pub find_index-later :
      (p : A → Bool) (x : A) (xs : List A) (i : ℕ)
      → find_index p (x ∷ xs) ≡ some (suc i)
      → (p x ≡ false) × (find_index p xs ≡ some i)
  find_index-later p x xs i e = (ground arith, ground arith)

  find_index-missed :
      (p : A → Bool) (x : A) (xs : List A)
      → find_index p (x ∷ xs) ≡ none
      → (p x ≡ false) × (find_index p xs ≡ none)
  find_index-missed p x xs e = (ground arith, ground arith)

  -- A write that the test does not tell from what was there.
  pub find_index-set_same :
      (p : A → Bool) (xs : List A) (i : ℕ) {v : A} (w : A)
      → get_elem? xs i ≡ some v
      → p w ≡ p v
      → find_index p (set xs i w) ≡ find_index p xs
  find_index-set_same p [] i w at same = refl
  find_index-set_same p (x ∷ xs) zero w at same = ground arith
  find_index-set_same p (x ∷ xs) (suc i) w at same = rw (find_index-set_same p xs i w at same) refl

  -- A write of the first element that passes.
  pub find_index-set_new :
      (p : A → Bool) (xs : List A) (i : ℕ) {v : A} (w : A)
      → find_index p xs ≡ none
      → get_elem? xs i ≡ some v
      → p w ≡ true
      → find_index p (set xs i w) ≡ some i
  find_index-set_new p [] i w e at hit = ground arith
  find_index-set_new p (x ∷ xs) zero w e at hit = rw hit refl
  find_index-set_new p (x ∷ xs) (suc i) w e at hit =
      let (miss, later) = find_index-missed p x xs e in
      rw (miss, find_index-set_new p xs i w later at hit) refl

  pub set-get : (xs : List A) (i : ℕ) {a : A} → get_elem? xs i ≡ some a → set xs i a ≡ xs
  set-get [] i e = refl
  set-get (x ∷ xs) zero e = ground arith
  set-get (x ∷ xs) (suc i) e = ap (◌∷◌ x) (set-get xs i e)

  pub set-set : (xs : List A) (i : ℕ) (a b : A) → set (set xs i a) i b ≡ set xs i b
  set-set [] i a b = refl
  set-set (x ∷ xs) zero a b = refl
  set-set (x ∷ xs) (suc i) a b = ap (◌∷◌ x) (set-set xs i a b)
