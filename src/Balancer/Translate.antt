-- ===== src/Balancer/Translate.antt =====
-- What `nat` of L4LB/LoadBalancer.c sends: the new addresses, and check fields that a receiver
-- accepts.
pub mod Checks
pub mod Sent
use io_t_lab.Common.{
  ℕ, suc, ◌+◌, ◌-◌, ◌*◌, ◌/◌, ◌%◌, ◌^◌, ◌<◌, ◌≤◌, ◌≡◌, ◌↔◌, ◌⊎◌, inl, inr, refl, sym, ◌∙◌, ap, List,
  [], ◌∷◌, ◌++◌, Option, some, none, arith, length, take, drop, set, u16, swap16, length-append,
  length-take, length-drop, length-set, length-replicate, All, All-append, All-take, All-drop,
  ◌>>=◌, >>=-eq-some, Option-cases, replicate, get_elem?, Returns,
}
use io_t_lab.Net.Memory.{
  IsByte, IsBytes, load8, load16, load32, store8, store16, store32, length-store16, length-store32,
  store16-IsBytes, store32-IsBytes, load16-store16, load16-store16_ne, load32-store16_ne,
  load32-store32_ne, load32-store32, drop-set, drop-set_below, take-set, append-set,
  load16-store16_mod,
}
use io_t_lab.Net.Header.{
  ip_header_size, ip_check_at, saddr_at, daddr_at, saddr, daddr, source_at, dest_at, source, dest,
  tcp_check_at, tot_len,
}
use io_t_lab.Net.Checksum.{checksum}
use io_t_lab.Net.Checksum.Sum.{folded}
use io_t_lab.Net.Checksum.Verify.{Accepts, checksum-Accepts_iff}
use io_t_lab.Balancer.{Balancer}
use io_t_lab.Balancer.Nat.{
  LbAddr, Direction, Rewrite, make_pseudo_header, rewrite, segment, fill_checks, tcp_length,
  translation, nat, pseudo_size,
}

load16-store32_ne : (xs : List ℕ) (k v i : ℕ) → i + 2 ≤ k → load16 (store32 xs k v) i ≡ load16 xs i
load16-store32_ne xs k v i apart =
    load16-store16_ne (store16 xs k v) (suc (suc k)) (v / 2 ^ 16) i (inr (omega arith))
    ∙ load16-store16_ne xs k v i (inr (omega arith))

module _ (lb : LbAddr) (r : Rewrite) (buf : List ℕ) (fits : 40 ≤ length buf) where
  -- The buffer after each store of `nat`.
  abbrev from_lb : List ℕ
  from_lb = store32 buf saddr_at lb.addr

  abbrev to_peer : List ℕ
  to_peer = store32 from_lb daddr_at r.to_addr

  abbrev addressed : List ℕ
  addressed = store16 to_peer dest_at r.to_port

  abbrev ported : List ℕ
  ported = store16 addressed source_at r.from_port

  abbrev ip_cleared : List ℕ
  ip_cleared = store16 ported ip_check_at 0

  length-to_peer : length to_peer ≡ length buf
  length-to_peer = length-store32 from_lb daddr_at r.to_addr ∙ length-store32 buf saddr_at lb.addr

  length-ported : length ported ≡ length buf
  length-ported =
      length-store16 addressed source_at r.from_port
      ∙ length-store16 to_peer dest_at r.to_port
      ∙ length-to_peer

  pub length-rewrite : length (rewrite lb r buf) ≡ length buf
  unfolding rewrite
  length-rewrite =
      length-store16 ip_cleared tcp_check_at 0 ∙ length-store16 ported ip_check_at 0 ∙ length-ported

  pub daddr-rewrite : r.to_addr < 2 ^ 32 → daddr (rewrite lb r buf) ≡ r.to_addr
  unfolding rewrite
  daddr-rewrite small =
      load32-store16_ne ip_cleared tcp_check_at 0 daddr_at (inr (omega arith))
      ∙ load32-store16_ne ported ip_check_at 0 daddr_at (inl (omega arith))
      ∙ load32-store16_ne addressed source_at r.from_port daddr_at (inr (omega arith))
      ∙ load32-store16_ne to_peer dest_at r.to_port daddr_at (inr (omega arith))
      ∙ load32-store32 from_lb daddr_at r.to_addr
          (omega (arith, length-store32 buf saddr_at lb.addr)) small

  pub saddr-rewrite : lb.addr < 2 ^ 32 → saddr (rewrite lb r buf) ≡ lb.addr
  unfolding rewrite
  saddr-rewrite small =
      load32-store16_ne ip_cleared tcp_check_at 0 saddr_at (inr (omega arith))
      ∙ load32-store16_ne ported ip_check_at 0 saddr_at (inl (omega arith))
      ∙ load32-store16_ne addressed source_at r.from_port saddr_at (inr (omega arith))
      ∙ load32-store16_ne to_peer dest_at r.to_port saddr_at (inr (omega arith))
      ∙ load32-store32_ne from_lb daddr_at r.to_addr saddr_at (inr (omega arith))
      ∙ load32-store32 buf saddr_at lb.addr (omega arith) small

  pub tot_len-rewrite : tot_len (rewrite lb r buf) ≡ tot_len buf
  unfolding rewrite
  tot_len-rewrite =
      load16-store16_ne ip_cleared tcp_check_at 0 2 (inr (omega arith))
      ∙ load16-store16_ne ported ip_check_at 0 2 (inr (omega arith))
      ∙ load16-store16_ne addressed source_at r.from_port 2 (inr (omega arith))
      ∙ load16-store16_ne to_peer dest_at r.to_port 2 (inr (omega arith))
      ∙ load16-store32_ne from_lb daddr_at r.to_addr 2 (omega arith)
      ∙ load16-store32_ne buf saddr_at lb.addr 2 (omega arith)

  pub dest-rewrite : r.to_port < 2 ^ 16 → dest (rewrite lb r buf) ≡ r.to_port
  unfolding rewrite
  dest-rewrite small =
      load16-store16_ne ip_cleared tcp_check_at 0 dest_at (inr (omega arith))
      ∙ load16-store16_ne ported ip_check_at 0 dest_at (inl (omega arith))
      ∙ load16-store16_ne addressed source_at r.from_port dest_at (inl (omega arith))
      ∙ load16-store16 to_peer dest_at r.to_port (omega (arith, length-to_peer)) small

  pub source-rewrite : r.from_port < 2 ^ 16 → source (rewrite lb r buf) ≡ r.from_port
  unfolding rewrite
  source-rewrite small =
      load16-store16_ne ip_cleared tcp_check_at 0 source_at (inr (omega arith))
      ∙ load16-store16_ne ported ip_check_at 0 source_at (inl (omega arith))
      ∙ load16-store16 addressed source_at r.from_port
          (omega (arith, length-store16 to_peer dest_at r.to_port, length-to_peer)) small

  -- The check fields are zero when the sums are taken.
  pub ip_check-rewrite : load16 (rewrite lb r buf) ip_check_at ≡ 0
  unfolding rewrite
  ip_check-rewrite =
      load16-store16_ne ip_cleared tcp_check_at 0 ip_check_at (inr (omega arith))
      ∙ load16-store16 ported ip_check_at 0 (omega (arith, length-ported)) (omega arith)

  pub tcp_check-rewrite : load16 (rewrite lb r buf) tcp_check_at ≡ 0
  unfolding rewrite
  tcp_check-rewrite =
      load16-store16 ip_cleared tcp_check_at 0
        (omega (arith, length-store16 ported ip_check_at 0, length-ported)) (omega arith)

  pub rewrite-IsBytes : IsBytes buf → IsBytes (rewrite lb r buf)
  unfolding rewrite
  rewrite-IsBytes bytes = store16-IsBytes ip_cleared tcp_check_at 0 (
      store16-IsBytes ported ip_check_at 0 (
        store16-IsBytes addressed source_at r.from_port (
          store16-IsBytes to_peer dest_at r.to_port (
            store32-IsBytes from_lb daddr_at r.to_addr
              (store32-IsBytes buf saddr_at lb.addr bytes)))))
