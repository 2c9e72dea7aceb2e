-- ===== src/Common/Search.antt =====
-- The least number that passes a test, when some number below a bound does.
use Prim.Native.Nat.{ℕ, zero, suc, ◌<◌}
use mathlib.Core.Path.{◌≡◌}
use mathlib.Core.Logic.{inl, inr}
use mathlib.Core.Bool.{Bool, true, false}
use native.Mathlib.Omega.{arith}
use io_t_lab.Common.Tests.{Bool-cases}

pub record IsLeast (p : ℕ → Bool) (n k : ℕ) : Type 0 where
  pub below : k < n
  pub passes : p k ≡ true
  pub before : (j : ℕ) → j < k → p j ≡ false

IsLeast-suc :
    (p : ℕ → Bool) (n : ℕ)
    → p 0 ≡ false
    → ((k : ℕ) × IsLeast (λ i. p (suc i)) n k)
    → (k : ℕ) × IsLeast p (suc n) k
IsLeast-suc p n later (k, found) = (
  suc k,
  record {
    below = omega (arith, found.below);
    passes = found.passes;
    before = elim [ zero ↦ λ h. later | suc j ↦ λ h. found.before j (omega arith) ];
  },
)

IsLeast-zero : (p : ℕ → Bool) (n : ℕ) → p 0 ≡ true → IsLeast p (suc n) 0
IsLeast-zero p n now = record {
  below = omega arith;
  passes = now;
  before = λ j h. absurd (omega arith);
}

pub IsLeast-of_below : (p : ℕ → Bool) (n m : ℕ) → m < n → p m ≡ true → (k : ℕ) × IsLeast p n k
IsLeast-of_below p zero m lt hit = absurd (omega arith)
IsLeast-of_below p (suc n) zero lt hit = (0, IsLeast-zero p n hit)
IsLeast-of_below p (suc n) (suc m) lt hit = elim (Bool-cases (p 0)) [
  | inl now ↦ (0, IsLeast-zero p n now)
  | inr later ↦ IsLeast-suc p n later (IsLeast-of_below (λ i. p (suc i)) n m (omega arith) hit)
]
