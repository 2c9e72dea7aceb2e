-- ===== src/Balancer/Tables/Rows.antt =====
-- The client list and the forwarding table of L4LB/LoadBalancer.c, row by row.
use io_t_lab.Common.{
  ℕ, zero, suc, ◌<◌, ◌≡◌, refl, ◌≢◌, List, [], ◌∷◌, some, arith, ◌==◌, if◌then◌else◌, length,
  get_elem?, set, All, Bool-cases, inl, inr, subst-some, minus_one, decr, ap,
}
use io_t_lab.Balancer.{Client, Entry, no_client}
use io_t_lab.Balancer.Ready.{clear_clients}

-- 0 out of range, as for a free slot.
abbrev pub port_at : List Client → ℕ → ℕ
port_at [] j = 0
port_at (c ∷ cs) zero = c.port
port_at (c ∷ cs) (suc j) = port_at cs j

abbrev pub server_at : List Entry → ℕ → ℕ
server_at [] j = minus_one
server_at (e ∷ es) zero = e.server
server_at (e ∷ es) (suc j) = server_at es j

abbrev pub phase_at : List Entry → ℕ → ℕ
phase_at [] j = minus_one
phase_at (e ∷ es) zero = e.phase
phase_at (e ∷ es) (suc j) = phase_at es j

-- A free slot has no pseudo port, so that no reply is taken for it.
abbrev pub IsPaired : Client → Type 0
IsPaired c = c.port ≡ 0 → c.pseudo_port ≡ 0

-- Closing server `id` clears its clients and its rows, and leaves the others alone.
pub length-clear_clients :
    (id : ℕ) (cs : List Client) (es : List Entry) (cnt : ℕ)
    → (length (clear_clients id cs es cnt).clients ≡ length cs)
      × (length (clear_clients id cs es cnt).table ≡ length es)
unfolding clear_clients
length-clear_clients id [] es cnt = (refl, refl)
length-clear_clients id (c ∷ cs) [] cnt = (refl, refl)
length-clear_clients id (c ∷ cs) (e ∷ es) cnt =
    ground (arith, length-clear_clients id cs es (if e.server == id then decr cnt else cnt))

pub clear_clients-kept :
    (id : ℕ) (cs : List Client) (es : List Entry) (cnt j : ℕ)
    → length cs ≡ length es
    → port_at (clear_clients id cs es cnt).clients j ≢ 0
    → (port_at cs j ≢ 0)
      × (server_at (clear_clients id cs es cnt).table j ≡ server_at es j)
      × (server_at es j ≢ id)
      × (phase_at (clear_clients id cs es cnt).table j ≡ phase_at es j)
unfolding clear_clients
clear_clients-kept id [] es cnt j len h = absurd (h refl)
clear_clients-kept id (c ∷ cs) [] cnt j len h = absurd (omega arith)
clear_clients-kept id (c ∷ cs) (e ∷ es) cnt zero len h = ground arith
clear_clients-kept id (c ∷ cs) (e ∷ es) cnt (suc j) len h =
    ground (arith, clear_clients-kept id cs es (if e.server == id then decr cnt else cnt) j)

pub clear_clients-IsPaired :
    (id : ℕ) (cs : List Client) (es : List Entry) (cnt : ℕ)
    → All IsPaired cs
    → All IsPaired (clear_clients id cs es cnt).clients
unfolding clear_clients
clear_clients-IsPaired id [] es cnt h = tt
clear_clients-IsPaired id (c ∷ cs) [] cnt h = h
clear_clients-IsPaired id (c ∷ cs) (e ∷ es) cnt h = elim (Bool-cases (e.server == id)) [
  | inl hit ↦ rw hit ((λ _. refl), clear_clients-IsPaired id cs es (decr cnt) h.1)
  | inr miss ↦ rw miss (h.0, clear_clients-IsPaired id cs es cnt h.1)
]

-- Writes to one row or one slot.
pub server_at-set_self :
    (es : List Entry) (i : ℕ) (e : Entry) → i < length es → server_at (set es i e) i ≡ e.server
server_at-set_self [] i e h = absurd (omega arith)
server_at-set_self (x ∷ es) zero e h = refl
server_at-set_self (x ∷ es) (suc i) e h = server_at-set_self es i e (omega arith)

pub server_at-set_ne :
    (es : List Entry) (i j : ℕ) (e : Entry) → i ≢ j → server_at (set es i e) j ≡ server_at es j
server_at-set_ne [] i j e h = refl
server_at-set_ne (x ∷ es) zero zero e h = absurd (h refl)
server_at-set_ne (x ∷ es) zero (suc j) e h = refl
server_at-set_ne (x ∷ es) (suc i) zero e h = refl
server_at-set_ne (x ∷ es) (suc i) (suc j) e h = server_at-set_ne es i j e (λ p. h (ap suc p))

pub server_at-set_phase :
    (es : List Entry) (i j : ℕ) (x : Entry) (p : ℕ)
    → get_elem? es i ≡ some x
    → server_at (set es i (record x { phase = p })) j ≡ server_at es j
server_at-set_phase [] i j x p h = refl
server_at-set_phase (y ∷ es) zero zero x p h = ground arith
server_at-set_phase (y ∷ es) zero (suc j) x p h = refl
server_at-set_phase (y ∷ es) (suc i) zero x p h = refl
server_at-set_phase (y ∷ es) (suc i) (suc j) x p h = server_at-set_phase es i j x p h

pub server_at-eq :
    (es : List Entry) (i : ℕ) {x : Entry} → get_elem? es i ≡ some x → server_at es i ≡ x.server
server_at-eq [] i h = ground arith
server_at-eq (y ∷ es) zero h = ground arith
server_at-eq (y ∷ es) (suc i) h = server_at-eq es i h

pub port_at-set_ne :
    (cs : List Client) (i j : ℕ) (c : Client) → i ≢ j → port_at (set cs i c) j ≡ port_at cs j
port_at-set_ne [] i j c h = refl
port_at-set_ne (x ∷ cs) zero zero c h = absurd (h refl)
port_at-set_ne (x ∷ cs) zero (suc j) c h = refl
port_at-set_ne (x ∷ cs) (suc i) zero c h = refl
port_at-set_ne (x ∷ cs) (suc i) (suc j) c h = port_at-set_ne cs i j c (λ p. h (ap suc p))

pub port_at-clear :
    (cs : List Client) (i j : ℕ) → port_at (set cs i no_client) j ≢ 0 → port_at cs j ≢ 0
port_at-clear [] i j h = h
port_at-clear (x ∷ cs) zero zero h = absurd (h refl)
port_at-clear (x ∷ cs) zero (suc j) h = h
port_at-clear (x ∷ cs) (suc i) zero h = h
port_at-clear (x ∷ cs) (suc i) (suc j) h = port_at-clear cs i j h

pub phase_at-set_self :
    (es : List Entry) (i : ℕ) (e : Entry) → i < length es → phase_at (set es i e) i ≡ e.phase
phase_at-set_self [] i e h = absurd (omega arith)
phase_at-set_self (x ∷ es) zero e h = refl
phase_at-set_self (x ∷ es) (suc i) e h = phase_at-set_self es i e (omega arith)

pub phase_at-set_ne :
    (es : List Entry) (i j : ℕ) (e : Entry) → i ≢ j → phase_at (set es i e) j ≡ phase_at es j
phase_at-set_ne [] i j e h = refl
phase_at-set_ne (x ∷ es) zero zero e h = absurd (h refl)
phase_at-set_ne (x ∷ es) zero (suc j) e h = refl
phase_at-set_ne (x ∷ es) (suc i) zero e h = refl
phase_at-set_ne (x ∷ es) (suc i) (suc j) e h = phase_at-set_ne es i j e (λ p. h (ap suc p))

pub phase_at-eq :
    (es : List Entry) (i : ℕ) {x : Entry} → get_elem? es i ≡ some x → phase_at es i ≡ x.phase
phase_at-eq [] i h = ground arith
phase_at-eq (y ∷ es) zero h = ground arith
phase_at-eq (y ∷ es) (suc i) h = phase_at-eq es i h

pub port_at-eq :
    (cs : List Client) (i : ℕ) {c : Client} → get_elem? cs i ≡ some c → port_at cs i ≡ c.port
port_at-eq [] i h = ground arith
port_at-eq (x ∷ cs) zero h = ground arith
port_at-eq (x ∷ cs) (suc i) h = port_at-eq cs i h

pub port_at-set_self :
    (cs : List Client) (i : ℕ) (c : Client) → i < length cs → port_at (set cs i c) i ≡ c.port
port_at-set_self [] i c h = absurd (omega arith)
port_at-set_self (x ∷ cs) zero c h = refl
port_at-set_self (x ∷ cs) (suc i) c h = port_at-set_self cs i c (omega arith)

pub IsPaired-get :
    (cs : List Client) (i : ℕ) {c : Client} → get_elem? cs i ≡ some c → All IsPaired cs → IsPaired c
IsPaired-get [] i e h = absurd (ground arith)
IsPaired-get (x ∷ cs) zero e h = subst-some IsPaired e h.0
IsPaired-get (x ∷ cs) (suc i) e h = IsPaired-get cs i e h.1
