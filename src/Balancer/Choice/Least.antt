-- ===== src/Balancer/Choice/Least.antt =====
-- Least connection and resource based: the loop stays inside the array, and picks the first of
-- the connected servers that cost least.
use io_t_lab.Common.{
  ℕ, zero, suc, ◌^◌, ◌≤◌, ◌<◌, ◌≡◌, refl, sym, List, [], ◌∷◌, Option, none, some, true, arith,
  Bool-cases, Option-cases, inl, inr, signed_key, ltb, ltb→lt, ◌∙◌, ap,
}
use native.Mathlib.Nat.{zero-add}
use io_t_lab.Balancer.{Server}
use io_t_lab.Balancer.Select.{is_active, Best, scan}
use io_t_lab.Balancer.Tables.{active, active_count}
use io_t_lab.Balancer.Choice.Scan.{cost_at, IsTail, IsSeen, IsEnd, scan-IsEnd}

pub some_active : (vs : List Server) → 0 < active_count vs → (j : ℕ) × (active vs j ≡ true)
some_active [] h = absurd (omega arith)
some_active (v ∷ vs) h = elim (Bool-cases (is_active v)) [
  | inl up ↦ (0, up)
  | inr down ↦ skip (some_active vs (ground arith))
]
  where
    skip : ((j : ℕ) × (active vs j ≡ true)) → (j : ℕ) × (active (v ∷ vs) j ≡ true)
    skip (j, e) = (suc j, e)

-- `k` is the first of the connected servers whose cost, as an `int`, is least.
pub record IsCheapest (cost : Server → ℕ) (vs : List Server) (k : ℕ) : Type 0 where
  pub connected : active vs k ≡ true
  pub least :
      (j : ℕ) → active vs j ≡ true → signed_key (cost_at cost vs k) ≤ signed_key (cost_at cost vs j)
  pub first :
      (j : ℕ)
      → j < k
      → active vs j ≡ true
      → signed_key (cost_at cost vs k) < signed_key (cost_at cost vs j)

pub active_count-pos : (vs : List Server) (j : ℕ) → active vs j ≡ true → 0 < active_count vs
active_count-pos [] j h = ground arith
active_count-pos (v ∷ vs) zero h = ground arith
active_count-pos (v ∷ vs) (suc j) h = ground (arith, active_count-pos vs j h)

-- `min_clnt` or `min_resource` before the loop.
abbrev pub no_best : ℕ → Best
no_best init = record { least = init; index = none }

module _ (cost : Server → ℕ) (vs : List Server) (init : ℕ) where
  IsTail-zero : IsTail cost (active vs) (cost_at cost vs) init vs 0
  IsTail-zero = record { state = λ j. rw zero-add refl; costs = λ j h. rw zero-add refl }

  IsSeen-zero : IsSeen cost (active vs) (cost_at cost vs) init 0 (no_best init)
  IsSeen-zero = record {
    least_of = λ j h on. absurd (omega arith);
    held = λ b e. absurd (ground arith);
    first = λ b j e lt on. absurd (ground arith);
    unset = λ e. refl;
  }

  -- Whatever the loop returns is connected.
  pub scan-active :
      (k : ℕ)
      → 0 < active_count vs
      → active_count vs < 2 ^ 32
      → scan cost vs 0 (active_count vs) (no_best init) ≡ some k
      → active vs k ≡ true
  scan-active k pos small e =
      let end =
        scan-IsEnd cost (active vs) (cost_at cost vs) init vs 0 (no_best init) IsTail-zero
          IsSeen-zero pos small in
      (end.seen.held k (sym end.result ∙ e)).1

module _ (cost : Server → ℕ) (vs : List Server) (init m : ℕ) (up : active vs m ≡ true)
    (cheap : signed_key (cost_at cost vs m) < signed_key init) where
  abbrev End : Option ℕ → Type 0
  End = IsEnd cost (active vs) (cost_at cost vs) init

  seen_of_active : (r : Option ℕ) (e : End r) (j : ℕ) → active vs j ≡ true → j < e.end
  seen_of_active r e j on = elim (Bool-cases (ltb j e.end)) [
    | inl before ↦ ltb→lt j e.end before
    | inr beyond ↦ absurd (ground (arith, e.rest j))
  ]

  IsCheapest-of_End : (r : Option ℕ) → End r → (k : ℕ) × (r ≡ some k) × IsCheapest cost vs k
  IsCheapest-of_End r e = elim (Option-cases e.best.index) [
    | inl missing ↦ absurd (
        omega (
          arith,
          ap signed_key (e.seen.unset missing),
          e.seen.least_of m (seen_of_active r e m up) up,
        ))
    | inr (k, found) ↦ (
      k,
      e.result ∙ found,
      record {
        connected = (e.seen.held k found).1;
        least =
            λ j on. rw (← (e.seen.held k found).2) (e.seen.least_of j (seen_of_active r e j on) on);
        first = λ j lt on. rw (← (e.seen.held k found).2) (e.seen.first k j found lt on);
      },
    )
  ]

  -- Some connected server below the first bound is enough for a choice.
  pub scan-IsCheapest :
      active_count vs < 2 ^ 32
      → (k : ℕ) × (scan cost vs 0 (active_count vs) (no_best init) ≡ some k) × IsCheapest cost vs k
  scan-IsCheapest small = IsCheapest-of_End _ (
      scan-IsEnd cost (active vs) (cost_at cost vs) init vs 0 (no_best init)
        (IsTail-zero cost vs init) (IsSeen-zero cost vs init) (active_count-pos vs m up) small)
