-- ===== src/Websocket/Mask.antt =====
-- Masking twice with one key gives the bytes back, and a byte masks to 0 only if it is the key's.
use Prim.Native.Nat.{bit_xor}
use io_t_lab.Common.{
  ℕ, zero, suc, ◌<◌, ◌≡◌, refl, List, [], ◌∷◌, Bool, true, false, if◌then◌else◌, ◌+◌, arith, get_or,
  ap, sym, ◌%◌, ◌∙◌, ◌==◌, ==_iff, ap₂, length,
}
use io_t_lab.Net.Memory.{IsBytes}
use io_t_lab.Websocket.{Key, key_bytes, turn, mask}

-- Whether a test passes at each of so many numbers, counted up from a first one.
sweep : ℕ → ℕ → (ℕ → Bool) → Bool
sweep zero from ok = true
sweep (suc rounds) from ok = if ok from then sweep rounds (suc from) ok else false

module _ (ok : ℕ → Bool) where
  passed : (rounds from d : ℕ) → d < rounds → sweep rounds from ok ≡ true → ok (from + d) ≡ true
  unfolding sweep
  passed zero from d inside swept = absurd (omega arith)
  passed (suc rounds) from zero inside swept =
      let start : from + 0 ≡ from = omega arith in rw start (ground arith)
  passed (suc rounds) from (suc d) inside swept =
      let next : from + suc d ≡ suc from + d = omega arith in
      rw next (passed rounds (suc from) d (omega arith) (ground arith))

undone : ℕ → ℕ → Bool
undone k b = b == bit_xor k (bit_xor k b)

bytes_undone : sweep 256 0 (λ k. sweep 256 0 (undone k)) ≡ true
unfolding sweep undone
bytes_undone = refl

pub xor_twice : (k b : ℕ) → k < 256 → b < 256 → bit_xor k (bit_xor k b) ≡ b
unfolding undone
xor_twice k b hk hb =
    let row = passed (λ j. sweep 256 0 (undone j)) 256 0 k hk bytes_undone in
    let column = passed (undone k) 256 0 b hb (ground (arith, row)) in
    sym ((==_iff b (bit_xor k (bit_xor k b))).0 (ground (arith, column)))

pub mask-mask :
    (k : Key) (bs : List ℕ) → IsBytes (key_bytes k) → IsBytes bs → mask k (mask k bs) ≡ bs
mask-mask k [] hk hb = refl
mask-mask k (b ∷ bs) hk hb =
    ap₂ ◌∷◌ (xor_twice k.k0 b hk.0 hb.0) (mask-mask (turn k) bs (omega arith) hb.1)

pub length-mask : (k : Key) (bs : List ℕ) → length (mask k bs) ≡ length bs
length-mask k [] = refl
length-mask k (b ∷ bs) = omega (arith, length-mask (turn k) bs)

-- RFC 6455, 5.3: byte i of a payload is masked by byte i modulo 4 of the key.
abbrev pub unmask : List ℕ → ℕ → List ℕ → List ℕ
unmask key i [] = []
unmask key i (b ∷ bs) = bit_xor (get_or key (i % 4) 0) b ∷ unmask key (suc i) bs

unmask-mask_turn :
    (key : List ℕ) (k : Key) (i : ℕ) (bs : List ℕ)
    → k.k0 ≡ get_or key (i % 4) 0
    → k.k1 ≡ get_or key (suc i % 4) 0
    → k.k2 ≡ get_or key (suc (suc i) % 4) 0
    → k.k3 ≡ get_or key (suc (suc (suc i)) % 4) 0
    → unmask key i bs ≡ mask k bs
unmask-mask_turn key k i [] e f g h = refl
unmask-mask_turn key k i (b ∷ bs) e f g h =
    let round : i % 4 ≡ suc (suc (suc (suc i))) % 4 = omega arith in
    ap₂ ◌∷◌ (ap (λ j. bit_xor j b) (sym e))
      (unmask-mask_turn key (turn k) (suc i) bs f g h (e ∙ ap (λ j. get_or key j 0) round))

pub unmask-mask : (k : Key) (bs : List ℕ) → unmask (key_bytes k) 0 bs ≡ mask k bs
unmask-mask k bs = unmask-mask_turn (key_bytes k) k 0 bs refl refl refl refl
