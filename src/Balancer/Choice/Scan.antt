-- ===== src/Balancer/Choice/Scan.antt =====
-- The loop of `select_serv` in L4LB/LoadBalancer.c over the slots: what it knows at each of them.
use io_t_lab.Common.{
  ℕ, zero, suc, ◌+◌, ◌-◌, ◌%◌, ◌^◌, ◌≤◌, ◌<◌, ◌≡◌, refl, sym, List, [], ◌∷◌, Option, none, some,
  Bool, true, false, arith, ◌==◌, if◌then◌else◌, length, Bool-cases, inl, inr, signed_key,
  signed_lt, ◌∙◌,
}
use io_t_lab.Balancer.{Server}
use io_t_lab.Balancer.Select.{is_active, Best, better, scan}
use io_t_lab.Balancer.Tables.{active, active_count}

abbrev pub cost_at : (Server → ℕ) → List Server → ℕ → ℕ
cost_at cost [] j = 0
cost_at cost (v ∷ vs) zero = cost v
cost_at cost (v ∷ vs) (suc j) = cost_at cost vs j

pub active_count-zero : (vs : List Server) (j : ℕ) → active_count vs ≡ 0 → active vs j ≡ false
active_count-zero [] j h = refl
active_count-zero (v ∷ vs) zero h = ground arith
active_count-zero (v ∷ vs) (suc j) h = active_count-zero vs j (ground arith)

-- The slots by their numbers: which are connected, and what they cost.
module _ (cost : Server → ℕ) (on : ℕ → Bool) (price : ℕ → ℕ) (init : ℕ) where
  -- The slots from `i` on.
  pub record IsTail (vs : List Server) (i : ℕ) : Type 0 where
    pub state : (j : ℕ) → active vs j ≡ on (i + j)
    pub costs : (j : ℕ) → j < length vs → cost_at cost vs j ≡ price (i + j)

  IsTail-suc : (v : Server) (vs : List Server) (i : ℕ) → IsTail (v ∷ vs) i → IsTail vs (i + 1)
  IsTail-suc v vs i t = record {
    state = λ j. let e : i + suc j ≡ (i + 1) + j = omega arith in rw (← e) (t.state (suc j));
    costs = λ j h.
        let e : i + suc j ≡ (i + 1) + j = omega arith in rw (← e) (t.costs (suc j) (omega arith));
  }

  -- What the loop knows once it has gone through the slots below `n`.
  pub record IsSeen (n : ℕ) (best : Best) : Type 0 where
    pub least_of : (j : ℕ) → j < n → on j ≡ true → signed_key best.least ≤ signed_key (price j)
    pub held : (b : ℕ) → best.index ≡ some b → (b < n) × (on b ≡ true) × (best.least ≡ price b)
    pub first :
        (b j : ℕ)
        → best.index ≡ some b
        → j < b
        → on j ≡ true
        → signed_key best.least < signed_key (price j)
    pub unset : best.index ≡ none → best.least ≡ init

  IsSeen-better :
      (n : ℕ) (best : Best) → on n ≡ true → IsSeen n best → IsSeen (n + 1) (better (price n) n best)
  IsSeen-better n best up s = elim (Bool-cases (signed_lt (price n) best.least)) [
    | inl less ↦ rw less (record {
      least_of = λ j h o. ground (arith, s.least_of j);
      held = λ b e. ground arith;
      first = λ b j e lt o. ground (arith, s.least_of j);
      unset = λ e. absurd (ground arith);
    })
    | inr more ↦ rw more (record {
      least_of = λ j h o. ground (arith, s.least_of j);
      held = λ b e. ground (arith, s.held b);
      first = λ b j e lt o. s.first b j e lt o;
      unset = s.unset;
    })
  ]

  IsSeen-skip : (n : ℕ) (best : Best) → on n ≡ false → IsSeen n best → IsSeen (n + 1) best
  IsSeen-skip n best off s = record {
    least_of = λ j h o. ground (arith, s.least_of j);
    held = λ b e. ground (arith, s.held b);
    first = s.first;
    unset = s.unset;
  }

  -- How the loop ends: at some slot past which nothing is connected.
  pub record IsEnd (r : Option ℕ) : Type 0 where
    pub best : Best
    pub result : r ≡ best.index
    pub end : ℕ
    pub seen : IsSeen end best
    pub rest : (j : ℕ) → end ≤ j → on j ≡ false

  IsSeen-suc :
      (v : Server) (vs : List Server) (i : ℕ) (best : Best)
      → IsTail (v ∷ vs) i
      → IsSeen i best
      → IsSeen (i + 1) (if is_active v then better (cost v) i best else best)
  IsSeen-suc v vs i best t s = elim (Bool-cases (is_active v)) [
    | inl up ↦ rw (up, own_cost) (IsSeen-better i best (sym own_state ∙ up) s)
    | inr down ↦ rw down (IsSeen-skip i best (sym own_state ∙ down) s)
  ]
    where
      here : i + 0 ≡ i
      here = omega arith

      own_state : is_active v ≡ on i
      own_state = rw here at (t.state 0)

      own_cost : cost v ≡ price i
      own_cost = rw here at (t.costs 0 (omega arith))

  IsEnd-stop :
      (vs : List Server) (i : ℕ) (best : Best)
      → IsTail vs i
      → IsSeen i best
      → active_count vs ≡ 0
      → IsEnd best.index
  IsEnd-stop vs i best t s none_left = record {
    best = best;
    result = refl;
    end = i;
    seen = s;
    rest = λ j h.
        let e : j ≡ i + (j - i) = omega arith in
        rw e (sym (t.state (j - i)) ∙ active_count-zero vs (j - i) none_left);
  }

  scan-suc :
      (v : Server) (vs : List Server) (i : ℕ) (best : Best)
      → active_count (v ∷ vs) < 2 ^ 32
      → let best' = if is_active v then better (cost v) i best else best in
        scan cost (v ∷ vs) i (active_count (v ∷ vs)) best ≡ (
          if active_count vs == 0
          then best'.index
          else scan cost vs (i + 1) (active_count vs) best')
  unfolding scan
  scan-suc v vs i best small = elim (Bool-cases (is_active v)) [
    | inl up ↦ rw up (
        let e : (suc (active_count vs) + 2 ^ 32 - 1) % 2 ^ 32 ≡ active_count vs = ground arith in
        rw e refl)
    | inr down ↦ rw down refl
  ]

  pub scan-IsEnd :
      (vs : List Server) (i : ℕ) (best : Best)
      → IsTail vs i
      → IsSeen i best
      → 0 < active_count vs
      → active_count vs < 2 ^ 32
      → IsEnd (scan cost vs i (active_count vs) best)
  scan-IsEnd [] i best t s pos small = absurd (omega arith)
  scan-IsEnd (v ∷ vs) i best t s pos small =
      rw (scan-suc v vs i best small) (elim (Bool-cases (active_count vs == 0)) [
        | inl stop ↦ rw stop (IsEnd-stop vs (i + 1) _ tail seen (ground arith))
        | inr more ↦ rw more (scan-IsEnd vs (i + 1) _ tail seen (ground arith) (ground arith))
      ])
    where
      tail : IsTail vs (i + 1)
      tail = IsTail-suc v vs i t

      seen : IsSeen (i + 1) (if is_active v then better (cost v) i best else best)
      seen = IsSeen-suc v vs i best t s
