-- ===== src/Balancer/Select.antt =====
-- `select_serv` of L4LB/LoadBalancer.c, and the names of the algorithms.
use Prim.Native.String.{String}
use io_t_lab.Common.{
  ℕ, zero, suc, ◌+◌, ◌-◌, ◌^◌, List, [], ◌∷◌, Option, none, some, Bool, not, ◌==◌, if◌then◌else◌,
  ◌>>=◌, incr, decr, minus_one, signed_lt, get_elem?, find_index,
}
use io_t_lab.Balancer.{Balancer, Server, max_serv, max_clnt}

-- `enum algorithms`.
abbrev pub rr : ℕ
rr = 0

abbrev pub least_conn : ℕ
least_conn = 1

abbrev pub resource_based : ℕ
resource_based = 2

-- `none` is the `exit` on an unknown number.
unfoldable pub make_algo_string : ℕ → Option String
make_algo_string algo =
    if algo == rr
    then some "Round Robin"
    else if algo == least_conn
    then some "Least Connection"
    else if algo == resource_based
    then some "Resource Based"
    else none

abbrev pub is_active : Server → Bool
is_active v = not (v.sock == 0)

abbrev pub next_id : ℕ → ℕ
next_id id = if incr id == max_serv then 0 else incr id

-- The `while (1)` of round robin, with fuel.
unfoldable pub rr_loop : ℕ → List Server → ℕ → Option ℕ
rr_loop zero servers recent = none
rr_loop (suc fuel) servers recent = elim (get_elem? servers (next_id recent)) [
  | none ↦ none
  | some v ↦
      let rest = rr_loop fuel servers (next_id recent) in
      if is_active v then some (next_id recent) else rest
]

-- The index and the new `recent_serv_id`.
unfoldable pub round_robin : List Server → ℕ → Option (ℕ × ℕ)
unfolding rr_loop
round_robin servers recent =
    if recent == minus_one
    then elim (find_index is_active servers) [ none ↦ some (0, recent) | some i ↦ some (i, i) ]
    else (rr_loop max_serv servers recent >>= λ i. some (i, i))

-- `min_clnt` or `min_resource`, and `min_index` once it is set.
pub record Best : Type 0 where
  pub least : ℕ
  pub index : Option ℕ

abbrev pub better : ℕ → ℕ → Best → Best
better c i best = if signed_lt c best.least then record { least = c; index = some i } else best

-- The loop of the two other algorithms from index `i` on. It is bounded by MAX_CLNT_CNT, not by
-- the length of `serv_list`, so a `count_down` that misses 0 reads past the array.
unfoldable pub scan : (Server → ℕ) → List Server → ℕ → ℕ → Best → Option ℕ
scan cost [] i count_down best = none
scan cost (v ∷ vs) i count_down best =
    let count = if is_active v then decr count_down else count_down in
    let best' = if is_active v then better (cost v) i best else best in
    let rest = scan cost vs (i + 1) count best' in if count == 0 then best'.index else rest

-- The result of an algorithm that leaves `recent_serv_id` alone.
abbrev pub with_recent : ℕ → Option ℕ → Option (ℕ × ℕ)
with_recent recent none = none
with_recent recent (some i) = some (i, recent)

unfoldable pub select_serv : ℕ → Balancer → Option (ℕ × ℕ)
unfolding round_robin scan
select_serv algo s =
    if algo == rr
    then round_robin s.servers s.recent_serv_id
    else if algo == least_conn
    then with_recent s.recent_serv_id
        (scan (λ v. v.clnt_cnt) s.servers 0 s.serv_cnt (record { least = max_clnt; index = none }))
    else if algo == resource_based
    then with_recent s.recent_serv_id (
        scan (λ v. v.resource_usage) s.servers 0 s.serv_cnt
          (record { least = 2 ^ 31 - 1; index = none }))
    else some (0, s.recent_serv_id)
