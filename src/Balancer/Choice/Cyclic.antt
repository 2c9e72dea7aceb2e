-- ===== src/Balancer/Choice/Cyclic.antt =====
-- Round robin: the loop ends within one turn, at the first connected server after the last one.
use io_t_lab.Common.{
  ℕ, zero, suc, ◌+◌, ◌-◌, ◌%◌, ◌≤◌, ◌<◌, ◌≡◌, List, some, true, false, arith, if◌then◌else◌, length,
  get_elem?, get_elem?-of_lt, IsLeast, IsLeast-of_below,
}
use io_t_lab.Balancer.{Server, max_serv}
use io_t_lab.Balancer.Select.{next_id, rr_loop, round_robin}
use io_t_lab.Balancer.Tables.{active, active-lt, active-eq-is_active}

pub next_id-lt : (id : ℕ) → id < max_serv → next_id id < max_serv
next_id-lt id h = ground arith

-- The slot `k` places after `id`, going round.
abbrev pub after : ℕ → ℕ → ℕ
after zero id = id
after (suc k) id = after k (next_id id)

pub after-eq-mod : (k id : ℕ) → id < max_serv → after k id ≡ (id + k) % max_serv
after-eq-mod zero id h = omega arith
after-eq-mod (suc k) id h = ground (arith, after-eq-mod k (next_id id) (next_id-lt id h))

-- `i` is the first connected server after `id`, `k` places on and going round.
pub record IsNext (servers : List Server) (id k i : ℕ) : Type 0 where
  pub ahead : 0 < k
  pub one_turn : k ≤ max_serv
  pub place : i ≡ (id + k) % max_serv
  pub connected : active servers i ≡ true
  pub skipped : (j : ℕ) → 0 < j → j < k → active servers ((id + j) % max_serv) ≡ false

rr_loop-step :
    (fuel : ℕ) (servers : List Server) (id : ℕ)
    → length servers ≡ max_serv
    → id < max_serv
    → rr_loop (suc fuel) servers id ≡ (
        if active servers (next_id id)
        then some (next_id id)
        else rr_loop fuel servers (next_id id))
unfolding rr_loop
rr_loop-step fuel servers id len h =
    go (get_elem?-of_lt servers (next_id id) (omega (arith, next_id-lt id h)))
  where
    go :
        ((v : Server) × (get_elem? servers (next_id id) ≡ some v))
        → rr_loop (suc fuel) servers id ≡ (
            if active servers (next_id id)
            then some (next_id id)
            else rr_loop fuel servers (next_id id))
    go (v, e) = rw (e, rr_loop) (rw (active-eq-is_active servers (next_id id) e))

rr_loop-first :
    (fuel k : ℕ) (servers : List Server) (id : ℕ)
    → length servers ≡ max_serv
    → id < max_serv
    → k < fuel
    → active servers (after (suc k) id) ≡ true
    → ((j : ℕ) → j < k → active servers (after (suc j) id) ≡ false)
    → rr_loop fuel servers id ≡ some (after (suc k) id)
rr_loop-first zero k servers id len h enough hit miss = absurd (omega arith)
rr_loop-first (suc fuel) zero servers id len h enough hit miss =
    rw (rr_loop-step fuel servers id len h) (rw hit)
rr_loop-first (suc fuel) (suc k) servers id len h enough hit miss =
    rw (rr_loop-step fuel servers id len h) (
      rw (miss 0 (omega arith)) (
        rr_loop-first fuel k servers (next_id id) len (next_id-lt id h) (omega arith) hit
          (λ j lt. miss (suc j) (omega arith))))

-- The distance from `id` to `i`, less one.
abbrev distance : ℕ → ℕ → ℕ
distance id i = (i + max_serv - 1 - id) % max_serv

after-distance : (id i : ℕ) → id < max_serv → i < max_serv → after (suc (distance id i)) id ≡ i
after-distance id i h hi = omega (arith, after-eq-mod (suc (distance id i)) id h)

round_robin-of_least :
    (servers : List Server) (id : ℕ)
    → length servers ≡ max_serv
    → id < max_serv
    → ((k : ℕ) × IsLeast (λ j. active servers (after (suc j) id)) max_serv k)
    → (k i : ℕ) × (round_robin servers id ≡ some (i, i)) × IsNext servers id k i
unfolding round_robin
round_robin-of_least servers id len h (k, least) = (
  suc k,
  after (suc k) id,
  returned,
  record {
    ahead = omega arith;
    one_turn = least.below;
    place = after-eq-mod (suc k) id h;
    connected = least.passes;
    skipped = elim [
      | zero ↦ λ p q. absurd (omega arith)
      | suc j ↦ λ p q. rw (← after-eq-mod (suc j) id h) (least.before j (omega arith))
    ];
  },
)
  where
    returned : round_robin servers id ≡ some (after (suc k) id, after (suc k) id)
    returned =
        ground
          (arith, rr_loop-first max_serv k servers id len h least.below least.passes least.before)

-- With five slots, a last choice among them and some connected server `i`, round robin returns:
-- it chooses, and remembers, the first connected server that follows the last choice in cyclic
-- order.
pub round_robin-IsNext :
    (servers : List Server) (id i : ℕ)
    → length servers ≡ max_serv
    → id < max_serv
    → active servers i ≡ true
    → (k j : ℕ) × (round_robin servers id ≡ some (j, j)) × IsNext servers id k j
round_robin-IsNext servers id i len h on = round_robin-of_least servers id len h (
    IsLeast-of_below _ max_serv (distance id i) (omega arith)
      (rw (after-distance id i h (omega (arith, active-lt servers i on))) on))
