-- ===== src/Common/Outcomes.antt =====
-- What holds of a result, if there is one.
use mathlib.Core.Path.{◌≡◌}
use mathlib.Core.Option.{Option, none, some}
use mathlib.Core.Bool.{Bool, true, false}
use native.Mathlib.Omega.{arith}
use io_t_lab.Common.Tests.{◌>>=◌, subst-some, if◌then◌else◌}

abbrev pub Ensures {ℓ κ} : {A : Type ℓ} → (A → Type κ) → Option A → Type κ
Ensures P none = Unit
Ensures P (some a) = P a

module _ {ℓ κ} {A : Type ℓ} (P : A → Type κ) where
  pub Ensures-intro : (m : Option A) → ((a : A) → m ≡ some a → P a) → Ensures P m
  Ensures-intro none h = tt
  Ensures-intro (some a) h = h a (cc)

  pub Ensures-elim : (m : Option A) (a : A) → m ≡ some a → Ensures P m → P a
  Ensures-elim none a e h = absurd (ground arith)
  Ensures-elim (some b) a e h = subst-some P e h

  pub Ensures->>= {ℓ'} :
      {B : Type ℓ'} (m : Option B) (f : B → Option A)
      → ((b : B) → m ≡ some b → Ensures P (f b))
      → Ensures P (m >>= f)
  Ensures->>= none f h = tt
  Ensures->>= (some b) f h = h b (cc)

  pub Ensures-if :
      (b : Bool) (m n : Option A)
      → (b ≡ true → Ensures P m)
      → (b ≡ false → Ensures P n)
      → Ensures P (if b then m else n)
  Ensures-if true m n h k = h (cc)
  Ensures-if false m n h k = k (cc)

-- There is a result.
abbrev pub Returns {ℓ} : {A : Type ℓ} → Option A → Type ℓ
Returns {A = A} m = (a : A) × (m ≡ some a)

pub Returns->>= {ℓ κ} :
    {A : Type ℓ} {B : Type κ} (m : Option A) (f : A → Option B)
    → Returns m
    → ((a : A) → m ≡ some a → Returns (f a))
    → Returns (m >>= f)
Returns->>= none f (a, e) h = absurd (ground arith)
Returns->>= (some b) f r h = h b (cc)

pub Returns-if {ℓ} :
    {A : Type ℓ} (b : Bool) (m n : Option A)
    → (b ≡ true → Returns m)
    → (b ≡ false → Returns n)
    → Returns (if b then m else n)
Returns-if true m n h k = h (cc)
Returns-if false m n h k = k (cc)
