-- ===== src/Balancer/Translate/Checks.antt =====
-- The check fields that `nat` of L4LB/LoadBalancer.c fills in.
use io_t_lab.Common.{
  ℕ, ◌+◌, ◌^◌, ◌<◌, ◌≤◌, ◌≡◌, ◌↔◌, inl, inr, refl, sym, ◌∙◌, ◌/◌, ◌%◌, ap, ap₂, List, [], ◌∷◌, ◌++◌,
  arith, swap16, u16, length, take, drop, length-append, length-take, length-drop, All-append,
  All-take, All-drop,
}
use io_t_lab.Net.Memory.{
  IsByte, IsBytes, load8, load16, store16, load32-store16_ne, load8-take, load8-drop, load8-append,
  take-store16, take-store16_above, drop-store16, drop-store16_below, append-store16,
}
use io_t_lab.Net.Header.{ip_header_size, ip_check_at, daddr_at, saddr, daddr, tcp_check_at}
use io_t_lab.Net.Checksum.{checksum}
use io_t_lab.Net.Checksum.Sum.{folded}
use io_t_lab.Net.Checksum.Verify.{Accepts, checksum-Accepts_iff}
use io_t_lab.Net.Checksum.Received.{segment_length, tcp_received, word_bytes, take-drop-load32}
use io_t_lab.Balancer.Nat.{LbAddr, make_pseudo_header, segment, fill_checks, pseudo_size}

length-make_pseudo_header :
    (from to protocol n : ℕ) → length (make_pseudo_header from to protocol n) ≡ pseudo_size
unfolding make_pseudo_header
length-make_pseudo_header from to protocol n = refl

make_pseudo_header-IsBytes :
    (from to protocol n : ℕ) → protocol < 256 → IsBytes (make_pseudo_header from to protocol n)
unfolding make_pseudo_header
make_pseudo_header-IsBytes from to protocol n h = omega arith

-- A store into the TCP check field is one into the segment; one into the IP header is not.
segment-store16 :
    (lb : LbAddr) (n v : ℕ) (buf : List ℕ)
    → segment lb n (store16 buf tcp_check_at v) ≡ store16 (segment lb n buf) 28 v
unfolding segment
segment-store16 lb n v buf =
    ap₂ ◌++◌
      (ap (λ t. make_pseudo_header lb.addr t 6 n)
        (load32-store16_ne buf tcp_check_at v daddr_at (inr (omega arith))))
      (ap (take n) (drop-store16 20 buf 16 v) ∙ take-store16 n (drop 20 buf) 16 v)
    ∙ append-store16 (make_pseudo_header lb.addr (daddr buf) 6 n) (take n (drop 20 buf)) 16 v
    ∙ ap (λ t. store16 (segment lb n buf) (t + 16) v)
        (length-make_pseudo_header lb.addr (daddr buf) 6 n)

segment-store16_ip :
    (lb : LbAddr) (n v : ℕ) (buf : List ℕ)
    → segment lb n (store16 buf ip_check_at v) ≡ segment lb n buf
unfolding segment
segment-store16_ip lb n v buf =
    ap₂ ◌++◌
      (ap (λ t. make_pseudo_header lb.addr t 6 n)
        (load32-store16_ne buf ip_check_at v daddr_at (inl (omega arith))))
      (ap (take n) (drop-store16_below 20 buf ip_check_at v (omega arith)))

module _ (lb : LbAddr) (n : ℕ) (buf : List ℕ) (bytes : IsBytes buf) (long : 20 ≤ n)
    (whole : 20 + n ≤ length buf) (small : length buf ≤ 2 ^ 16) where
  abbrev sealed : List ℕ
  sealed = store16 buf tcp_check_at (checksum (segment lb n buf))

  abbrev payload : List ℕ
  payload = take n (drop ip_header_size buf)

  length-segment : length (segment lb n buf) ≡ pseudo_size + n
  unfolding segment
  length-segment = omega (
    arith,
    length-append (make_pseudo_header lb.addr (daddr buf) 6 n) payload,
    length-make_pseudo_header lb.addr (daddr buf) 6 n,
    length-take n (drop ip_header_size buf) (omega (arith, length-drop ip_header_size buf)),
  )

  segment-IsBytes : IsBytes (segment lb n buf)
  unfolding segment
  segment-IsBytes =
      All-append IsByte (make_pseudo_header lb.addr (daddr buf) 6 n) payload
        (make_pseudo_header-IsBytes lb.addr (daddr buf) 6 n (omega arith))
        (All-take IsByte n (drop ip_header_size buf) (All-drop IsByte ip_header_size buf bytes))

  -- The check field of the segment stands behind the pseudo header and 16 bytes of TCP header.
  load8-segment : (i : ℕ) → i < n → load8 (segment lb n buf) (pseudo_size + i) ≡ load8 buf (20 + i)
  unfolding segment
  load8-segment i h =
      load8-append (make_pseudo_header lb.addr (daddr buf) 6 n) payload i
      ∙ load8-take n (drop ip_header_size buf) i h
      ∙ load8-drop ip_header_size buf i

  abbrev sums : List ℕ
  sums = fill_checks lb n buf

  segment-fill_checks :
      segment lb n sums ≡ store16 (segment lb n buf) 28 (checksum (segment lb n buf))
  unfolding fill_checks
  segment-fill_checks =
      segment-store16_ip lb n (checksum (take ip_header_size sealed)) sealed
      ∙ segment-store16 lb n (checksum (segment lb n buf)) buf

  -- The sent TCP checksum is accepted exactly when one fold leaves no carry.
  pub tcp-Accepts_iff :
      load16 buf tcp_check_at ≡ 0
      → Accepts (segment lb n sums) ↔ (folded (segment lb n buf) < 2 ^ 16)
  tcp-Accepts_iff zeroed = rw segment-fill_checks (
      checksum-Accepts_iff (segment lb n buf) 14 segment-IsBytes (omega (arith, length-segment))
        (omega (arith, length-segment))
        (omega (arith, load8-segment 16 (omega arith), load8-segment 17 (omega arith))))

  header-fill_checks :
      take ip_header_size sums
      ≡ store16 (take ip_header_size buf) ip_check_at (checksum (take ip_header_size buf))
  unfolding fill_checks
  header-fill_checks =
      take-store16 ip_header_size sealed ip_check_at (checksum (take ip_header_size sealed))
      ∙ ap (λ t. store16 t ip_check_at (checksum t))
          (take-store16_above ip_header_size buf tcp_check_at (checksum (segment lb n buf))
            (omega arith))

  -- So is the checksum of the 20-byte IP header.
  pub ip-Accepts_iff :
      load16 buf ip_check_at ≡ 0
      → Accepts (take ip_header_size sums) ↔ (folded (take ip_header_size buf) < 2 ^ 16)
  ip-Accepts_iff zeroed = rw header-fill_checks (
      checksum-Accepts_iff (take ip_header_size buf) 5 (All-take IsByte ip_header_size buf bytes)
        (omega (arith, length-take ip_header_size buf (omega arith)))
        (omega (arith, length-take ip_header_size buf (omega arith)))
        (omega (
          arith,
          load8-take ip_header_size buf 10 (omega arith),
          load8-take ip_header_size buf 11 (omega arith),
        )))

-- The pseudo header of the program is that of RFC 9293.
pseudo_header-bytes :
    (from to n : ℕ)
    → n < 2 ^ 16
    → make_pseudo_header from to 6 n
      ≡ word_bytes from ++ word_bytes to ++ 0 ∷ 6 ∷ n / 256 ∷ n % 256 ∷ []
unfolding make_pseudo_header
pseudo_header-bytes from to n small =
    let high : swap16 (u16 n) % 256 ≡ n / 256 = omega arith in
    let low : swap16 (u16 n) / 256 % 256 ≡ n % 256 = omega arith in rw (high, low) refl

pub segment-received :
    (lb : LbAddr) (n : ℕ) (out : List ℕ)
    → IsBytes out
    → 40 ≤ length out
    → n < 2 ^ 16
    → saddr out ≡ lb.addr
    → segment_length out ≡ n
    → tcp_received out ≡ segment lb n out
unfolding segment
segment-received lb n out bytes long small from sized =
    rw
      (
        sized,
        take-drop-load32 12 out bytes (omega arith),
        take-drop-load32 16 out bytes (omega arith),
        from,
      )
      (ap (◌++ take n (drop 20 out)) (sym (pseudo_header-bytes lb.addr (daddr out) n small)))
