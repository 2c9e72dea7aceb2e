-- ===== src/Balancer/Choice/Selected.antt =====
-- `select_serv` of L4LB/LoadBalancer.c as its caller sees it.
use io_t_lab.Common.{
  ℕ, ◌-◌, ◌^◌, ◌<◌, ◌≡◌, ◌≢◌, List, some, true, arith, ◌==◌, length, Option-cases, inl, inr,
  Bool-cases, signed_key,
}
use io_t_lab.Balancer.{Balancer, Server, Client, Entry, max_serv, max_clnt}
use io_t_lab.Balancer.Select.{
  rr, least_conn, resource_based, round_robin, scan, select_serv, with_recent,
}
use io_t_lab.Balancer.Tables.{active, active_count, active_count-le}
use io_t_lab.Balancer.Choice.Cyclic.{IsNext, round_robin-IsNext}
use io_t_lab.Balancer.Choice.Scan.{cost_at}
use io_t_lab.Balancer.Choice.Least.{IsCheapest, no_best, some_active, scan-active, scan-IsCheapest}

-- What `select_serv` relies on.
pub record IsCounted (s : Balancer) : Type 0 where
  pub slots : length s.servers ≡ max_serv
  pub counted : s.serv_cnt ≡ active_count s.servers
  pub recent : s.recent_serv_id < max_serv

-- The other tables do not matter to it.
pub IsCounted-tables :
    (s : Balancer) (cs : List Client) (cnt : ℕ) (es : List Entry)
    → IsCounted s
    → IsCounted (record s { clients = cs; clnt_cnt = cnt; table = es })
IsCounted-tables s cs cnt es ok = record {
  slots = ok.slots;
  counted = ok.counted;
  recent = ok.recent;
}

module _ (s : Balancer) (ok : IsCounted s) (busy : s.serv_cnt ≢ 0) where
  round_robin-returned :
      (i r : ℕ)
      → round_robin s.servers s.recent_serv_id ≡ some (i, r)
      → (active s.servers i ≡ true) × (r < max_serv)
  round_robin-returned i r e = go (some_active s.servers (omega (arith, ok.counted)))
    where
      next :
          ((k j : ℕ) × (round_robin s.servers s.recent_serv_id ≡ some (j, j))
            × IsNext s.servers s.recent_serv_id k j)
          → (active s.servers i ≡ true) × (r < max_serv)
      next (k, j, e', n) = ground (arith, n.connected, n.place)

      go : ((j : ℕ) × (active s.servers j ≡ true)) → (active s.servers i ≡ true) × (r < max_serv)
      go (j, up) = next (round_robin-IsNext s.servers s.recent_serv_id j ok.slots ok.recent up)

  scan-returned :
      (cost : Server → ℕ) (init i r : ℕ)
      → with_recent s.recent_serv_id (scan cost s.servers 0 s.serv_cnt (no_best init)) ≡ some (i, r)
      → (active s.servers i ≡ true) × (r < max_serv)
  scan-returned cost init i r e =
      elim (Option-cases (scan cost s.servers 0 s.serv_cnt (no_best init))) [
        | inl fault ↦ absurd (ground arith)
        | inr (k, found) ↦ ground (
          arith,
          scan-active cost s.servers init k (omega (arith, ok.counted))
              (omega (arith, active_count-le s.servers, ok.slots)) (rw (← ok.counted) found),
          ok.recent,
        )
      ]

  -- What an algorithm that `main` accepts returns is the slot of a connected server.
  pub select_serv-active :
      (algo i r : ℕ)
      → algo < 3
      → select_serv algo s ≡ some (i, r)
      → (active s.servers i ≡ true) × (r < max_serv)
  unfolding select_serv
  select_serv-active algo i r known e = elim (Bool-cases (algo == rr)) [
    | inl a ↦ round_robin-returned i r (rw a at e)
    | inr a ↦ elim (Bool-cases (algo == least_conn)) [
      | inl b ↦ scan-returned (λ v. v.clnt_cnt) max_clnt i r (rw (a, b) at e)
      | inr b ↦ elim (Bool-cases (algo == resource_based)) [
        | inl c ↦ scan-returned (λ v. v.resource_usage) (2 ^ 31 - 1) i r (rw (a, b, c) at e)
        | inr c ↦ absurd (ground arith)
      ]
    ]
  ]

  -- Round robin returns, and takes the first connected server that follows the last choice in
  -- cyclic order.
  pub select_serv-IsNext :
      (k i : ℕ) × (select_serv rr s ≡ some (i, i)) × IsNext s.servers s.recent_serv_id k i
  unfolding select_serv
  select_serv-IsNext = go (some_active s.servers (omega (arith, ok.counted)))
    where
      go :
          ((j : ℕ) × (active s.servers j ≡ true))
          → (k i : ℕ) × (round_robin s.servers s.recent_serv_id ≡ some (i, i))
            × IsNext s.servers s.recent_serv_id k i
      go (j, up) = round_robin-IsNext s.servers s.recent_serv_id j ok.slots ok.recent up

  scan-chosen :
      (cost : Server → ℕ) (init m : ℕ)
      → active s.servers m ≡ true
      → signed_key (cost_at cost s.servers m) < signed_key init
      → (k : ℕ) × (with_recent s.recent_serv_id (scan cost s.servers 0 s.serv_cnt (no_best init))
          ≡ some (k, s.recent_serv_id))
        × IsCheapest cost s.servers k
  scan-chosen cost init m up cheap = go (
      scan-IsCheapest cost s.servers init m up cheap
        (omega (arith, active_count-le s.servers, ok.slots)))
    where
      go :
          ((k : ℕ) × (scan cost s.servers 0 (active_count s.servers) (no_best init) ≡ some k)
            × IsCheapest cost s.servers k)
          → (k : ℕ) × (with_recent s.recent_serv_id
                (scan cost s.servers 0 s.serv_cnt (no_best init))
              ≡ some (k, s.recent_serv_id))
            × IsCheapest cost s.servers k
      go (k, found, best) = (k, rw (ok.counted, found), best)

  -- Least connection returns as soon as one connected server has fewer than MAX_CLNT_CNT clients,
  -- and takes the first of those with fewest clients.
  pub select_serv-least_conn :
      (m : ℕ)
      → active s.servers m ≡ true
      → signed_key (cost_at (λ v. v.clnt_cnt) s.servers m) < signed_key max_clnt
      → (k : ℕ) × (select_serv least_conn s ≡ some (k, s.recent_serv_id))
        × IsCheapest (λ v. v.clnt_cnt) s.servers k
  unfolding select_serv
  select_serv-least_conn = scan-chosen (λ v. v.clnt_cnt) max_clnt

  -- Resource based returns as soon as one connected server reports less than INT_MAX, and takes
  -- the first of those that report least.
  pub select_serv-resource_based :
      (m : ℕ)
      → active s.servers m ≡ true
      → signed_key (cost_at (λ v. v.resource_usage) s.servers m) < signed_key (2 ^ 31 - 1)
      → (k : ℕ) × (select_serv resource_based s ≡ some (k, s.recent_serv_id))
        × IsCheapest (λ v. v.resource_usage) s.servers k
  unfolding select_serv
  select_serv-resource_based = scan-chosen (λ v. v.resource_usage) (2 ^ 31 - 1)
