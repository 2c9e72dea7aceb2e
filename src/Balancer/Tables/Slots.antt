-- ===== src/Balancer/Tables/Slots.antt =====
-- The server list of L4LB/LoadBalancer.c: which slots hold a connected server.
use io_t_lab.Common.{
  ℕ, zero, suc, ◌+◌, ◌≤◌, ◌<◌, ◌≡◌, refl, ◌≢◌, List, [], ◌∷◌, some, Bool, true, false, arith,
  if◌then◌else◌, length, get_elem?, set, find_index, find_index_sound, ap, ◌∙◌,
}
use io_t_lab.Balancer.{Server, no_server}
use io_t_lab.Balancer.Select.{is_active}
use io_t_lab.Balancer.Servers.{fill_slot}
use io_t_lab.Balancer.Ready.{has_sock}

-- Slot `i` is in range and holds a connected server.
abbrev pub active : List Server → ℕ → Bool
active [] i = false
active (v ∷ vs) zero = is_active v
active (v ∷ vs) (suc i) = active vs i

abbrev pub active_count : List Server → ℕ
active_count [] = 0
active_count (v ∷ vs) = if is_active v then suc (active_count vs) else active_count vs

pub active-lt : (vs : List Server) (i : ℕ) → active vs i ≡ true → i < length vs
active-lt [] i h = ground arith
active-lt (v ∷ vs) zero h = omega arith
active-lt (v ∷ vs) (suc i) h = omega (arith, active-lt vs i h)

pub active-eq-is_active :
    (vs : List Server) (i : ℕ) {v : Server} → get_elem? vs i ≡ some v → active vs i ≡ is_active v
active-eq-is_active [] i h = ground arith
active-eq-is_active (v ∷ vs) zero h = ground arith
active-eq-is_active (v ∷ vs) (suc i) h = active-eq-is_active vs i h

pub active_count-le : (vs : List Server) → active_count vs ≤ length vs
active_count-le [] = omega arith
active_count-le (v ∷ vs) = ground (arith, active_count-le vs)

-- A write that keeps a slot's state keeps them all.
pub active-set_same :
    (vs : List Server) (i j : ℕ) (w : Server)
    → active vs i ≡ is_active w
    → active (set vs i w) j ≡ active vs j
active-set_same [] i j w h = refl
active-set_same (v ∷ vs) zero zero w h = ground arith
active-set_same (v ∷ vs) zero (suc j) w h = refl
active-set_same (v ∷ vs) (suc i) zero w h = refl
active-set_same (v ∷ vs) (suc i) (suc j) w h = active-set_same vs i j w h

pub active_count-set_same :
    (vs : List Server) (i : ℕ) (w : Server)
    → active vs i ≡ is_active w
    → active_count (set vs i w) ≡ active_count vs
active_count-set_same [] i w h = refl
active_count-set_same (v ∷ vs) zero w h = ground arith
active_count-set_same (v ∷ vs) (suc i) w h = ground (arith, active_count-set_same vs i w h)

pub active-set_ne :
    (vs : List Server) (i j : ℕ) (w : Server) → i ≢ j → active (set vs i w) j ≡ active vs j
active-set_ne [] i j w h = refl
active-set_ne (v ∷ vs) zero zero w h = absurd (h refl)
active-set_ne (v ∷ vs) zero (suc j) w h = refl
active-set_ne (v ∷ vs) (suc i) zero w h = refl
active-set_ne (v ∷ vs) (suc i) (suc j) w h = active-set_ne vs i j w (λ e. h (ap suc e))

pub active_count-clear :
    (vs : List Server) (i : ℕ)
    → active vs i ≡ true
    → active_count (set vs i no_server) + 1 ≡ active_count vs
active_count-clear [] i h = ground arith
active_count-clear (v ∷ vs) zero h = ground arith
active_count-clear (v ∷ vs) (suc i) h = ground (arith, active_count-clear vs i h)

-- A new server takes a free slot if there is one, and no other slot changes.
pub length-fill_slot :
    (sock ip port : ℕ) (vs : List Server) → length (fill_slot sock ip port vs) ≡ length vs
unfolding fill_slot
length-fill_slot sock ip port [] = refl
length-fill_slot sock ip port (v ∷ vs) = ground (arith, length-fill_slot sock ip port vs)

pub active-fill_slot :
    (sock ip port : ℕ) (vs : List Server) (j : ℕ)
    → active vs j ≡ true
    → active (fill_slot sock ip port vs) j ≡ true
unfolding fill_slot
active-fill_slot sock ip port [] j h = h
active-fill_slot sock ip port (v ∷ vs) zero h = ground arith
active-fill_slot sock ip port (v ∷ vs) (suc j) h =
    ground (arith, active-fill_slot sock ip port vs j)

pub active_count-fill_slot :
    (sock ip port : ℕ) (vs : List Server)
    → sock ≢ 0
    → active_count vs < length vs
    → active_count (fill_slot sock ip port vs) ≡ active_count vs + 1
unfolding fill_slot
active_count-fill_slot sock ip port [] h free = absurd (omega arith)
active_count-fill_slot sock ip port (v ∷ vs) h free =
    ground (arith, active_count-fill_slot sock ip port vs)

-- The slot that a descriptor names is active.
pub active-of_sock :
    (fd : ℕ) (vs : List Server) (i : ℕ)
    → fd ≢ 0
    → find_index (has_sock fd) vs ≡ some i
    → active vs i ≡ true
active-of_sock fd vs i h e = active-of_found (find_index_sound (has_sock fd) vs i e)
  where
    active-of_found :
        ((v : Server) × (get_elem? vs i ≡ some v) × (has_sock fd v ≡ true)) → active vs i ≡ true
    active-of_found (v, at, hit) = active-eq-is_active vs i at ∙ ground arith
