-- ===== src/Stream/Output.antt =====
-- What the output stream of lab06/lib/MemoryStream.cpp holds after a write.
use io_t_lab.Common.{
  ℕ, zero, suc, ◌+◌, ◌-◌, ◌*◌, ◌^◌, ◌<◌, ◌≤◌, ◌≡◌, ◌∙◌, refl, sym, ap, List, [], ◌∷◌, ◌++◌, some,
  arith, ltb, Bool-cases, inl, inr, drop, length, drop-append_at, take-append_at, drop-append_add,
  leb, true, take-eq_of_le, length-append, u32,
}
use native.Mathlib.Nat.{zero-add, add-zero}
use mathlib.Core.List.{append_assoc}
use io_t_lab.Stream.{
  OutputMemoryStream, max, garbage, realloc_buffer, new_stream, make_room, copy_in, write,
}

module _ (fresh : ℕ → ℕ) where
  pub length-garbage : (from n : ℕ) → length (garbage fresh from n) ≡ n
  length-garbage from zero = refl
  length-garbage from (suc n) = ap suc (length-garbage (suc from) n)

  garbage-add :
      (from m n : ℕ)
      → garbage fresh from (m + n) ≡ garbage fresh from m ++ garbage fresh (from + m) n
  garbage-add from zero n = rw (zero-add, add-zero)
  garbage-add from (suc m) n =
      let e : suc m + n ≡ suc (m + n) = omega arith in
      let f : from + suc m ≡ suc from + m = omega arith in
      rw (e, f) (ap (◌∷◌ (fresh from)) (garbage-add (suc from) m n))

  drop-garbage :
      (k from n : ℕ) → k ≤ n → drop k (garbage fresh from n) ≡ garbage fresh (from + k) (n - k)
  drop-garbage k from n h =
      let split : n ≡ k + (n - k) = omega arith in
      ap (λ m. drop k (garbage fresh from m)) split
      ∙ ap (drop k) (garbage-add from k (n - k))
      ∙ drop-append_at k (garbage fresh from k) _ (length-garbage from k)

  -- The stream holds these bytes up to its head, and behind them what was never written.
  pub record Holds (bytes : List ℕ) (s : OutputMemoryStream) : Type 0 where
    pub layout : s.buffer ≡ bytes ++ garbage fresh s.head (s.capacity - s.head)
    pub headed : s.head ≡ length bytes
    pub within : s.head ≤ s.capacity
    pub modest : s.capacity ≤ 2 * s.head + 32

  pub new_stream-Holds : Holds [] (new_stream fresh)
  unfolding new_stream realloc_buffer
  new_stream-Holds = record {
    layout = refl;
    headed = refl;
    within = omega arith;
    modest = omega arith;
  }

  -- What `Holds` says of the block before the head moves to `n`.
  record Ready (bytes : List ℕ) (n : ℕ) (s t : OutputMemoryStream) : Type 0 where
    layout : t.buffer ≡ bytes ++ garbage fresh t.head (t.capacity - t.head)
    same : (t.head ≡ s.head) × (t.bit_head ≡ s.bit_head)
    room : n ≤ t.capacity
    modest : t.capacity ≤ 2 * n + 32

  length-held :
      (bytes : List ℕ) (s : OutputMemoryStream) → Holds bytes s → length s.buffer ≡ s.capacity
  length-held bytes s h =
      ap length h.layout
      ∙ omega (
        arith,
        length-append bytes (garbage fresh s.head (s.capacity - s.head)),
        length-garbage s.head (s.capacity - s.head),
        h.headed,
        h.within,
      )

  realloc_buffer-layout :
      (bytes : List ℕ) (m : ℕ) (s : OutputMemoryStream)
      → Holds bytes s
      → s.capacity ≤ m
      → (realloc_buffer fresh m s).buffer ≡ bytes ++ garbage fresh s.head (m - s.head)
  unfolding realloc_buffer
  realloc_buffer-layout bytes m s h larger =
      let start : s.head + (s.capacity - s.head) ≡ s.capacity = omega (arith, h.within) in
      let all : s.capacity - s.head + (m - s.capacity) ≡ m - s.head = omega (arith, h.within) in
      ap (λ b. b ++ garbage fresh s.capacity (m - s.capacity))
        (take-eq_of_le m s.buffer (omega (arith, length-held bytes s h)) ∙ h.layout)
      ∙ append_assoc bytes _ _
      ∙ ap (λ b. bytes ++ b)
          (ap (λ k. garbage fresh s.head (s.capacity - s.head) ++ garbage fresh k (m - s.capacity))
              (sym start)
            ∙ sym (garbage-add s.head (s.capacity - s.head) (m - s.capacity))
            ∙ ap (garbage fresh s.head) all)

  make_room-Ready :
      (bytes : List ℕ) (n : ℕ) (s : OutputMemoryStream)
      → Holds bytes s
      → s.head ≤ n
      → n < 2 ^ 30
      → Ready bytes n s (make_room fresh n s)
  unfolding make_room realloc_buffer
  make_room-Ready bytes n s h ahead small = elim (Bool-cases (ltb s.capacity n)) [
    | inl full ↦
        let target = max (u32 (s.capacity * 2)) n in
        let above : n ≤ target = ground arith in
        let below : target ≤ 2 * n + 32 = ground arith in
        rw full (record {
          layout = realloc_buffer-layout bytes target s h (ground arith);
          same = (refl, refl);
          room = above;
          modest = below;
        })
    | inr free ↦ rw free (record {
      layout = h.layout;
      same = (refl, refl);
      room = ground arith;
      modest = omega (arith, h.modest);
    })
  ]

  copy_in-eq :
      (xs bytes : List ℕ) (at n : ℕ)
      → at ≡ length bytes
      → length xs ≤ n
      → copy_in xs at (bytes ++ garbage fresh at n)
        ≡ some (bytes ++ (xs ++ garbage fresh (at + length xs) (n - length xs)))
  unfolding copy_in
  copy_in-eq xs bytes at n here fits =
      let rest = garbage fresh at n in
      let room : leb (at + length xs) (length (bytes ++ rest)) ≡ true =
        ground (arith, length-append bytes rest, length-garbage at n) in
      rw (room, take-append_at at bytes rest (sym here))
        (ap (λ b. some (bytes ++ (xs ++ b)))
          (ap (λ k. drop (k + length xs) (bytes ++ rest)) here
            ∙ drop-append_add bytes rest (length xs)
            ∙ drop-garbage (length xs) at n fits))

  -- `Write` appends its bytes, whatever the capacity was, as long as the stream stays below 2 ^ 30
  -- bytes.
  pub write-Holds :
      (xs bytes : List ℕ) (s : OutputMemoryStream)
      → Holds bytes s
      → length bytes + length xs < 2 ^ 30
      → (t : OutputMemoryStream) × (write fresh xs s ≡ some t)
        × Holds (bytes ++ xs) t
        × (t.bit_head ≡ s.bit_head)
  unfolding write
  write-Holds xs bytes s h small =
      let n = s.head + length xs in
      let wide : u32 (s.head + u32 (length xs)) ≡ n = omega (arith, h.headed) in
      let t = make_room fresh n s in
      let r = make_room-Ready bytes n s h (omega arith) (omega (arith, h.headed)) in
      let copied =
        copy_in-eq xs bytes t.head (t.capacity - t.head) (r.same.0 ∙ h.headed)
          (omega (arith, r.same.0, r.room)) in
      let end : t.head + length xs ≡ n = omega (arith, r.same.0) in
      let left : t.capacity - t.head - length xs ≡ t.capacity - n = omega (arith, end) in
      (
        record t { buffer = bytes ++ (xs ++ garbage fresh n (t.capacity - n)); head = n },
        rw (wide, r.layout, copied, end, left) refl,
        record {
          layout = sym (append_assoc bytes xs _);
          headed = omega (arith, h.headed, length-append bytes xs);
          within = r.room;
          modest = r.modest;
        },
        r.same.1,
      )
