-- ===== src/Echo/Select/Agree.antt =====
-- One descriptor of a round of the select server, beside the event that it is for a level-triggered
-- server.
use io_t_lab.Common.{
  ℕ, zero, suc, ◌<◌, ◌≤◌, ◌≡◌, ◌∙◌, refl, ap, sym, arith, List, [], ◌∷◌, ◌++◌, Option, none, some,
  ◌>>=◌, true, Bool-cases, inl, inr, ◌⊎◌, ◌==◌, if◌then◌else◌, All, lt→ltb, ==_iff,
}
use mathlib.Core.Path.{subst}
use io_t_lab.Echo.{
  Reading, got, eof, failed, Event, accepted, readable, Epoll, without, lt_event, run_lt,
}
use io_t_lab.Echo.Select.{fd_setsize, Round, Reads, raise, accept_client, read_client, serve_fd}

pub run_lt-append :
    (es fs : List Event) (s : Epoll) → run_lt (es ++ fs) s ≡ (run_lt es s >>= run_lt fs)
unfolding run_lt
run_lt-append [] fs s = refl
run_lt-append (e ∷ es) fs s =
    bind_assoc (lt_event e s) (run_lt es) (run_lt (es ++ fs)) (run_lt-append es fs)
  where
    bind_assoc :
        (m : Option Epoll) (f g : Epoll → Option Epoll)
        → ((t : Epoll) → g t ≡ (f t >>= run_lt fs))
        → (m >>= g) ≡ ((m >>= f) >>= run_lt fs)
    bind_assoc none f g h = refl
    bind_assoc (some t) f g h = h t

-- `accept` returns a descriptor that fits into a set.
abbrev pub IsRequest : Option ℕ → Type 0
IsRequest none = ⊥
IsRequest (some fd) = fd < fd_setsize

All-without : (P : ℕ → Type 0) (fd : ℕ) (xs : List ℕ) → All P xs → All P (without fd xs)
All-without P fd [] h = tt
All-without P fd (x ∷ xs) h =
    let rest = All-without P fd xs h.1 in
    elim (Bool-cases (fd == x)) [ inl e ↦ rw e rest | inr n ↦ rw n (h.0, rest) ]

All-le : (m n : ℕ) (xs : List ℕ) → m ≤ n → All (λ x. x ≤ m) xs → All (λ x. x ≤ n) xs
All-le m n [] h a = tt
All-le m n (x ∷ xs) h a = (omega arith, All-le m n xs h a.1)

abbrev pub Listed : ℕ → List ℕ → Type 0
Listed fd [] = ⊥
Listed fd (x ∷ xs) = (fd ≡ x) ⊎ Listed fd xs

pub Listed-le : (m fd : ℕ) (xs : List ℕ) → Listed fd xs → All (λ x. x ≤ m) xs → fd ≤ m
Listed-le m fd [] h a = absurd h
Listed-le m fd (x ∷ xs) (inl e) a = omega (arith, a.0)
Listed-le m fd (x ∷ xs) (inr h) a = Listed-le m fd xs h a.1

module _ (serv_sock : ℕ) where
  -- Every descriptor of the set is within fd_max, and fd_max fits.
  abbrev pub IsWithin : Reads → Type 0
  IsWithin s =
      (serv_sock ≤ s.fd_max) × All (λ fd. fd ≤ s.fd_max) s.served.watched × (s.fd_max < fd_setsize)

  -- The same result, with fd_max at least k.
  abbrev pub Agrees : ℕ → Option Reads → Option Epoll → Type 0
  Agrees k none none = Unit
  Agrees k (some s) (some t) = (s.served ≡ t) × (k ≤ s.fd_max) × IsWithin s
  Agrees k none (some t) = ⊥
  Agrees k (some s) none = ⊥

  pub Agrees->>= :
      (k : ℕ) (m : Option Reads) (m' : Option Epoll) (f : Reads → Option Reads)
      (g : Epoll → Option Epoll)
      → Agrees k m m'
      → ((s : Reads) → m ≡ some s → k ≤ s.fd_max → IsWithin s → Agrees k (f s) (g s.served))
      → Agrees k (m >>= f) (m' >>= g)
  Agrees->>= k none none f g a h = tt
  Agrees->>= k (some s) (some t) f g a h = subst (λ e. Agrees k (f s) (g e)) a.0 (h s refl a.1 a.2)
  Agrees->>= k none (some t) f g a h = absurd a
  Agrees->>= k (some s) none f g a h = absurd a

  abbrev pub AcceptsOf : Round → Type 0
  AcceptsOf r = r.ready serv_sock ≡ true → IsRequest r.request

  -- The event of a ready descriptor.
  abbrev pub event : Round → ℕ → List Event
  event r i =
      if r.ready i
      then (if i == serv_sock
          then (elim r.request [ none ↦ [] | some fd ↦ accepted fd ∷ [] ])
          else readable i (r.reading i) ∷ [])
      else []

  -- The events of so many descriptors from one on.
  abbrev pub events : Round → ℕ → ℕ → List Event
  events r i zero = []
  events r i (suc n) = event r i ++ events r (suc i) n

  accept_client-Agrees :
      (k : ℕ) (o : Option ℕ) (s : Reads)
      → IsRequest o
      → k ≤ s.fd_max
      → IsWithin s
      → Agrees k
          (accept_client o s)
          (run_lt (elim o [ none ↦ [] | some fd ↦ accepted fd ∷ [] ]) s.served)
  unfolding accept_client run_lt lt_event
  accept_client-Agrees k none s q h w = absurd q
  accept_client-Agrees k (some fd) s q h w = rw (lt→ltb fd fd_setsize q) (
    refl,
    raise-ge.0,
    (raise-ge.1, (raise-ge.2, All-le s.fd_max _ s.served.watched raise-ge.3 w.1), raise-lt),
  )
    where
      raise-ge :
          (k ≤ raise s.fd_max fd)
          × (serv_sock ≤ raise s.fd_max fd)
          × (fd ≤ raise s.fd_max fd)
          × (s.fd_max ≤ raise s.fd_max fd)
      raise-ge = (ground arith, ground arith, ground arith, ground arith)

      raise-lt : raise s.fd_max fd < fd_setsize
      raise-lt = ground arith

  read_client-Agrees :
      (k i : ℕ) (rd : Reading) (s : Reads)
      → k ≤ s.fd_max
      → IsWithin s
      → Agrees k (read_client i rd s) (run_lt (readable i rd ∷ []) s.served)
  unfolding read_client run_lt lt_event
  read_client-Agrees k i (got bytes) s h w = (refl, h, w)
  read_client-Agrees k i eof s h w =
      (refl, h, (w.0, All-without (λ fd. fd ≤ s.fd_max) i s.served.watched w.1, w.2))
  read_client-Agrees k i failed s h w = tt

  pub serve_fd-Agrees :
      (k : ℕ) (r : Round) (i : ℕ) (s : Reads)
      → AcceptsOf r
      → k ≤ s.fd_max
      → IsWithin s
      → Agrees k (serve_fd serv_sock r i s) (run_lt (event r i) s.served)
  unfolding serve_fd run_lt
  serve_fd-Agrees k r i s q h w = elim (Bool-cases (r.ready i)) [
    | inl ready ↦ rw ready (elim (Bool-cases (i == serv_sock)) [
      | inl e ↦ rw e (
          accept_client-Agrees k r.request s
            (q (ap r.ready (sym ((==_iff i serv_sock).0 e)) ∙ ready)) h w)
      | inr n ↦ rw n (read_client-Agrees k i (r.reading i) s h w)
    ])
    | inr idle ↦ rw idle (refl, h, w)
  ]
