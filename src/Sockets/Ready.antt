-- ===== src/Sockets/Ready.antt =====
-- SocketUtil::Select fills each vector with the ready sockets of the vector given, in their order.
use io_t_lab.Common.{
  ℕ, ◌+◌, ◌<◌, ◌≤◌, ◌≡◌, ◌∙◌, refl, arith, List, [], ◌∷◌, Option, none, some, Bool, true, ◌&&◌, ltb,
  lt→ltb, signed_lt, if◌then◌else◌, All, Bool-cases, inl, inr,
}
use io_t_lab.Echo.Select.{fd_setsize}
use io_t_lab.Sockets.{
  is_set, max, fill_sockets, fill_set_from_vector, keep_set, fill_vector_from_set, fill_vectors,
  Vectors, SelectCall, select_sockets,
}

-- A socket that is no null pointer and whose descriptor fits a set.
abbrev pub IsOpen : Option ℕ → Type 0
IsOpen none = ⊥
IsOpen (some fd) = fd < fd_setsize

abbrev pub AllOpen : Option (List (Option ℕ)) → Type 0
AllOpen none = Unit
AllOpen (some sockets) = All IsOpen sockets

-- What `select` documents of each set: it keeps the members below nfds that are ready.
abbrev pub Keeps : (ℕ → Bool) → ℕ → Option (List ℕ) → List ℕ → Type 0
Keeps ready nfds none out = Unit
Keeps ready nfds (some set) out =
    (fd : ℕ) → is_set fd out ≡ (is_set fd set && (ltb fd nfds && ready fd))

abbrev pub ready_sockets : (ℕ → Bool) → List (Option ℕ) → List (Option ℕ)
ready_sockets ready [] = []
ready_sockets ready (none ∷ sockets) = ready_sockets ready sockets
ready_sockets ready (some fd ∷ sockets) =
    if ready fd then some fd ∷ ready_sockets ready sockets else ready_sockets ready sockets

-- What the caller should find in a vector.
abbrev pub filled :
    (ℕ → Bool) → Option (List (Option ℕ)) → Option (List (Option ℕ)) → Option (List (Option ℕ))
filled ready (some out) (some sockets) = some (ready_sockets ready sockets)
filled ready out sockets = out

abbrev IsIn : List ℕ → ℕ → Option ℕ → Type 0
IsIn set nfds none = ⊥
IsIn set nfds (some fd) = (is_set fd set ≡ true) × (fd ≤ nfds)

-- The set holds what it held and every socket, and nfds is no less than any of them.
abbrev IsFilled : List (Option ℕ) → List ℕ → ℕ → List ℕ × ℕ → Type 0
IsFilled sockets set nfds r =
    (nfds ≤ r.1)
    × ((fd : ℕ) → is_set fd set ≡ true → is_set fd r.0 ≡ true)
    × All (IsIn r.0 r.1) sockets

fill_sockets-IsFilled :
    (sockets : List (Option ℕ)) (set : List ℕ) (nfds : ℕ)
    → All IsOpen sockets
    → (r : List ℕ × ℕ) × (fill_sockets sockets set nfds ≡ some r) × IsFilled sockets set nfds r
unfolding fill_sockets
fill_sockets-IsFilled [] set nfds h = ((set, nfds), refl, (omega arith, λ fd q. q, tt))
fill_sockets-IsFilled (none ∷ sockets) set nfds h = absurd h.0
fill_sockets-IsFilled (some fd ∷ sockets) set nfds h =
    let (r, ran, (grows, keeps, all)) =
      fill_sockets-IsFilled sockets (fd ∷ set) (max nfds fd) h.1 in
    let self : is_set fd (fd ∷ set) ≡ true = ground arith in
    (
      r,
      rw (lt→ltb fd fd_setsize h.0) ran,
      (ground arith, λ x q. keeps x (ground arith), ((keeps fd self, ground arith), all)),
    )

keep_set-ready :
    (ready : ℕ → Bool) (sockets : List (Option ℕ)) (set out : List ℕ) (n nfds : ℕ)
    → n < nfds
    → All (IsIn set n) sockets
    → Keeps ready nfds (some set) out
    → keep_set out sockets ≡ some (ready_sockets ready sockets)
keep_set-ready ready [] set out n nfds lt h k = refl
keep_set-ready ready (none ∷ sockets) set out n nfds lt h k = absurd h.0
keep_set-ready ready (some fd ∷ sockets) set out n nfds lt h k =
    let same : is_set fd out ≡ ready fd =
      k fd ∙ rw h.0.0 (rw (lt→ltb fd nfds (omega (arith, h.0.1))) refl) in
    rw (keep_set-ready ready sockets set out n nfds lt h.1 k, same) (ground arith)

abbrev Fills : Option (List (Option ℕ)) → Option (List ℕ) → ℕ → Type 0
Fills none none n = Unit
Fills (some sockets) (some set) n = All (IsIn set n) sockets
Fills none (some set) n = ⊥
Fills (some sockets) none n = ⊥

fill_set_from_vector-Fills :
    (given : Option (List (Option ℕ))) (nfds : ℕ)
    → AllOpen given
    → (set : Option (List ℕ)) × (n : ℕ) × (fill_set_from_vector given nfds ≡ some (set, n))
      × (nfds ≤ n)
      × Fills given set n
unfolding fill_set_from_vector
fill_set_from_vector-Fills none nfds h = (none, nfds, refl, omega arith, tt)
fill_set_from_vector-Fills (some sockets) nfds h =
    let (r, ran, (grows, keeps, all)) = fill_sockets-IsFilled sockets [] nfds h in
    (some r.0, r.1, rw ran refl, grows, all)

fill_vector_from_set-filled :
    (ready : ℕ → Bool) (given out : Option (List (Option ℕ))) (set : Option (List ℕ))
    (left : List ℕ) (n nfds : ℕ)
    → n < nfds
    → Fills given set n
    → Keeps ready nfds set left
    → fill_vector_from_set out given left ≡ some (filled ready out given)
unfolding fill_vector_from_set
fill_vector_from_set-filled ready given none set left n nfds lt f k = refl
fill_vector_from_set-filled ready none (some out) set left n nfds lt f k = refl
fill_vector_from_set-filled ready (some sockets) (some out) none left n nfds lt f k = absurd f
fill_vector_from_set-filled ready (some sockets) (some out) (some set) left n nfds lt f k =
    rw (keep_set-ready ready sockets set left n nfds lt f k) refl

module _ (readable writable exceptional : ℕ → Bool) (select : SelectCall) where
  -- What the call documents when it returns a positive number.
  abbrev pub IsSelect : Type 0
  IsSelect =
      (nfds : ℕ) (r w e : Option (List ℕ))
      → signed_lt 0 (select nfds r w e).count ≡ true
      → Keeps readable nfds r (select nfds r w e).read
        × Keeps writable nfds w (select nfds r w e).write
        × Keeps exceptional nfds e (select nfds r w e).except

  -- If `select` keeps the ready descriptors below nfds of each set when it returns a positive number,
  -- and the vectors given hold open sockets whose descriptors fit a set, SocketUtil::Select is free
  -- of undefined behaviour: after a positive number each vector that is given and asked for holds the
  -- ready sockets of the one given, in order, whatever the other vectors are, and all others stay;
  -- after 0 or an error all stay.
  pub select_sockets-filled :
      (given out : Vectors)
      → IsSelect
      → AllOpen given.reads
      → AllOpen given.writes
      → AllOpen given.excepts
      → (count : ℕ) × (select_sockets select given out
          ≡ some (
            count,
            if signed_lt 0 count
                then record {
                  reads = filled readable out.reads given.reads;
                  writes = filled writable out.writes given.writes;
                  excepts = filled exceptional out.excepts given.excepts;
                }
                else out,
          ))
  unfolding select_sockets fill_vectors
  select_sockets-filled given out documented open_r open_w open_e =
      let (r, nr, ran_r, le_r, fills_r) = fill_set_from_vector-Fills given.reads 0 open_r in
      let (w, nw, ran_w, le_w, fills_w) = fill_set_from_vector-Fills given.writes nr open_w in
      let (e, ne, ran_e, le_e, fills_e) = fill_set_from_vector-Fills given.excepts nw open_e in
      let done = select (ne + 1) r w e in
      let positive : signed_lt 0 done.count ≡ true → fill_vectors done given out ≡ some filled_all =
        λ p.
          let (k_r, k_w, k_e) = documented (ne + 1) r w e p in
          rw
            (fill_vector_from_set-filled readable given.reads out.reads r done.read nr (ne + 1)
              (omega arith) fills_r k_r)
            (rw
              (fill_vector_from_set-filled writable given.writes out.writes w done.write nw (ne + 1)
                (omega arith) fills_w k_w)
              (rw
                (fill_vector_from_set-filled exceptional given.excepts out.excepts e done.except ne
                  (ne + 1) (omega arith) fills_e k_e)
                refl)) in
      (
        done.count,
        rw ran_r (
            rw ran_w (
              rw ran_e (elim (Bool-cases (signed_lt 0 done.count)) [
                | inl p ↦ rw p (rw (positive p) refl)
                | inr n ↦ rw n refl
              ]))),
      )
    where
      filled_all : Vectors
      filled_all = record {
        reads = filled readable out.reads given.reads;
        writes = filled writable out.writes given.writes;
        excepts = filled exceptional out.excepts given.excepts;
      }
