-- ===== src/Net/Checksum.antt =====
-- `checksum` of L4LB/LoadBalancer.c and of lab04/src/tcp_client_raw.c, which have the same text.
pub mod Sum
pub mod Verify
pub mod Received
use io_t_lab.Common.{ℕ, ◌+◌, ◌-◌, ◌*◌, ◌/◌, ◌%◌, ◌^◌, List, [], ◌∷◌, u16, u32}

-- The two loops over the words of the buffer and the odd byte at its end; `sum` is an
-- `unsigned int`.
pub sum_loop : ℕ → List ℕ → ℕ
sum_loop sum [] = sum
sum_loop sum (lo ∷ []) = u32 (sum + lo)
sum_loop sum (lo ∷ hi ∷ rest) = sum_loop (u32 (sum + (lo + 256 * hi))) rest

-- `(sum & 0xffff) + (sum >> 16)`: the carries are folded in once.
pub fold_once : ℕ → ℕ
fold_once sum = u32 (u16 sum + sum / 2 ^ 16)

unfoldable pub checksum : List ℕ → ℕ
unfolding sum_loop fold_once
checksum buf = u16 (2 ^ 32 - 1 - fold_once (sum_loop 0 buf))
