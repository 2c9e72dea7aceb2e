-- ===== src/Chat/Leave.antt =====
-- Which sockets stay in the list of lab05/lab05_src/chat_serv.c when a client leaves.
use io_t_lab.Common.{
  ℕ, zero, suc, ◌+◌, ◌-◌, ◌^◌, ◌<◌, ◌≤◌, ◌≡◌, refl, sym, ◌∙◌, List, [], ◌∷◌, some, arith, decr,
  get_elem?, get_elem?-of_lt, get_elem?-lt, length-take, ap, get_elem?-set_self, get_elem?-set_ne,
  length, length-set, set, take, find_index, find_index_sound,
}
use native.Mathlib.Decide.{ℕ_discrete}
use io_t_lab.Chat.{Chat, members, shift, is_sock, leave}

-- The loop moves every slot from `i + 2` on one down and leaves `i` itself.
pub record IsShifted (n i : ℕ) (old new : List ℕ) : Type 0 where
  pub before : (j : ℕ) → j ≤ i → get_elem? new j ≡ get_elem? old j
  pub moved : (j : ℕ) → i < j → j ≤ i + n → get_elem? new j ≡ get_elem? old (suc j)
  pub behind : (j : ℕ) → i + n < j → get_elem? new j ≡ get_elem? old j

shift-IsShifted :
    (n i : ℕ) (socks : List ℕ)
    → i + n + 1 < length socks
    → (new : List ℕ) × (shift n i socks ≡ some new) × IsShifted n i socks new
unfolding shift
shift-IsShifted zero i socks fits = (
  socks,
  refl,
  record { before = λ j h. refl; moved = λ j h k. absurd (omega arith); behind = λ j h. refl },
)
shift-IsShifted (suc n) i socks fits =
    let (v, at) = get_elem?-of_lt socks (suc (suc i)) (omega arith) in
    let (new, ran, h) =
      shift-IsShifted n (suc i) (set socks (suc i) v) (omega (arith, length-set socks (suc i) v)) in
    (
      new,
      rw at ran,
      record {
        before = λ j k. h.before j (omega arith) ∙ get_elem?-set_ne socks (suc i) j v (omega arith);
        moved = λ j k l. elim (ℕ_discrete j (suc i)) [
          | yes here ↦ rw here (
              h.before (suc i) (omega arith)
              ∙ get_elem?-set_self socks (suc i) v (omega arith)
              ∙ sym at)
          | no later ↦
              h.moved j (omega arith) (omega arith)
              ∙ get_elem?-set_ne socks (suc i) (suc j) v (omega arith)
        ];
        behind = λ j k. h.behind j (omega arith) ∙ get_elem?-set_ne socks (suc i) j v (omega arith);
      },
    )

get_elem?-take : (n : ℕ) (xs : List ℕ) (j : ℕ) → j < n → get_elem? (take n xs) j ≡ get_elem? xs j
get_elem?-take zero xs j h = absurd (omega arith)
get_elem?-take (suc n) [] j h = refl
get_elem?-take (suc n) (x ∷ xs) zero h = refl
get_elem?-take (suc n) (x ∷ xs) (suc j) h = get_elem?-take n xs j (omega arith)

-- What is left in the list after `leave`, with `i` the first slot of the client that has gone.
pub record IsLeft (c t : Chat) (i : ℕ) : Type 0 where
  pub counted : t.clnt_cnt + 1 ≡ c.clnt_cnt
  pub before : (j : ℕ) → j ≤ i → get_elem? t.clnt_socks j ≡ get_elem? c.clnt_socks j
  pub moved :
      (j : ℕ) → i < j → j < t.clnt_cnt → get_elem? t.clnt_socks j ≡ get_elem? c.clnt_socks (suc j)

module _ (c : Chat) (sock i : ℕ) (found : find_index (is_sock sock) (members c) ≡ some i)
    (room : c.clnt_cnt < length c.clnt_socks) (few : c.clnt_cnt < 2 ^ 31) where
  found-lt : i < c.clnt_cnt
  found-lt =
      let (v, at, hit) = find_index_sound (is_sock sock) (members c) i found in
      omega
        (arith, get_elem?-lt (members c) i at, length-take c.clnt_cnt c.clnt_socks (omega arith))

  -- With a list that is not full, `leave` returns, and lowers the count; of the slots that remain
  -- those up to and with the leaving client's keep their sockets, and each later one takes the
  -- socket of its neighbour. So a client that is not the last stays in the list in place of the
  -- one behind it.
  pub leave-IsLeft : (t : Chat) × (leave sock c ≡ some t) × IsLeft c t i
  unfolding leave
  leave-IsLeft =
      let (new, ran, h) =
        shift-IsShifted (c.clnt_cnt - 1 - i) i c.clnt_socks (omega (arith, found-lt)) in
      (
        record { clnt_cnt = decr c.clnt_cnt; clnt_socks = new },
        rw (found, leave) (rw ran refl),
        record {
          counted = omega (arith, found-lt);
          before = h.before;
          moved = λ j k l. h.moved j k (omega (arith, found-lt));
        },
      )

  -- If the list is not full and the leaving client is not the last member, it is still a member
  -- afterwards, at its old place.
  pub leave_keeps :
      i + 1 < c.clnt_cnt
      → (t : Chat) × (leave sock c ≡ some t) × (get_elem? (members t) i ≡ some sock)
  leave_keeps not_last =
      let (t, left, h) = leave-IsLeft in
      let (v, at, hit) = find_index_sound (is_sock sock) (members c) i found in
      (
        t,
        left,
        get_elem?-take t.clnt_cnt t.clnt_socks i (omega (arith, h.counted))
            ∙ h.before i (omega arith)
            ∙ sym (get_elem?-take c.clnt_cnt c.clnt_socks i found-lt)
            ∙ at
            ∙ ap some (ground arith),
      )
