-- ===== src/Balancer/Translate/Sent.antt =====
-- `nat` of L4LB/LoadBalancer.c as a whole.
use io_t_lab.Common.{
  ◌*◌, swap16, ℕ, ◌+◌, ◌^◌, ◌<◌, ◌≤◌, ◌≡◌, ◌↔◌, inl, inr, refl, ◌∙◌, ◌%◌, get_elem?, >>=-eq-some,
  subst-some, List, some, arith, length, take,
}
use io_t_lab.Net.Checksum.Received.{tcp_received}
use io_t_lab.Net.Memory.{
  load8, load8-lt, store16-IsBytes, length-store16, IsBytes, load16-store16_ne, load32-store16_ne,
}
use io_t_lab.Net.Header.{
  ihl, tot_len, ip_header_size, ip_check_at, tcp_check_at, saddr_at, daddr_at, source_at, dest_at,
  saddr, daddr, source, dest,
}
use io_t_lab.Net.Checksum.{checksum}
use io_t_lab.Net.Checksum.Sum.{folded}
use io_t_lab.Net.Checksum.Verify.{Accepts}
use io_t_lab.Balancer.{Balancer, Server, Client}
use io_t_lab.Balancer.Nat.{
  LbAddr, Direction, clnt2serv, serv2clnt, Rewrite, rewrite, segment, fill_checks, tcp_length,
  translation, nat,
}
use io_t_lab.Balancer.Translate.{
  length-rewrite, tot_len-rewrite, rewrite-IsBytes, saddr-rewrite, daddr-rewrite, source-rewrite,
  dest-rewrite, ip_check-rewrite, tcp_check-rewrite,
}
use io_t_lab.Balancer.Translate.Checks.{segment-received, tcp-Accepts_iff, ip-Accepts_iff}

tcp_length-le : (buf : List ℕ) (n : ℕ) → tcp_length buf ≡ some n → ip_header_size + n ≤ length buf
unfolding tcp_length
tcp_length-le buf n e = ground arith

tcp_length-total :
    (buf : List ℕ) (n : ℕ)
    → tcp_length buf ≡ some n
    → IsBytes buf
    → ihl buf ≡ 5
    → 256 * load8 buf 2 + load8 buf 3 ≡ n + 20
unfolding tcp_length
tcp_length-total buf n e bytes plain =
    let swapped : swap16 (tot_len buf) ≡ 256 * load8 buf 2 + load8 buf 3 =
      omega (arith, load8-lt buf 2 bytes, load8-lt buf 3 bytes) in
    ground (arith, plain, swapped)

-- The stores into the check fields leave the addresses and the length alone.
fill_checks-addresses :
    (lb : LbAddr) (n : ℕ) (buf : List ℕ)
    → let out = fill_checks lb n buf in
      (saddr out ≡ saddr buf)
      × (daddr out ≡ daddr buf)
      × (source out ≡ source buf)
      × (dest out ≡ dest buf)
      × (tot_len out ≡ tot_len buf)
unfolding fill_checks
fill_checks-addresses lb n buf = (
  load32-store16_ne sealed ip_check_at c saddr_at (inl (omega arith))
      ∙ load32-store16_ne buf tcp_check_at t saddr_at (inr (omega arith)),
  load32-store16_ne sealed ip_check_at c daddr_at (inl (omega arith))
      ∙ load32-store16_ne buf tcp_check_at t daddr_at (inr (omega arith)),
  load16-store16_ne sealed ip_check_at c source_at (inl (omega arith))
      ∙ load16-store16_ne buf tcp_check_at t source_at (inr (omega arith)),
  load16-store16_ne sealed ip_check_at c dest_at (inl (omega arith))
      ∙ load16-store16_ne buf tcp_check_at t dest_at (inr (omega arith)),
  load16-store16_ne sealed ip_check_at c 2 (inr (omega arith))
      ∙ load16-store16_ne buf tcp_check_at t 2 (inr (omega arith)),
)
  where
    t : ℕ
    t = checksum (segment lb n buf)

    sealed : List ℕ
    sealed = io_t_lab.Net.Memory.store16 buf tcp_check_at t

    c : ℕ
    c = checksum (take ip_header_size sealed)

module _ (lb : LbAddr) (source_id dest_id : ℕ) (s : Balancer) where
  -- Who a packet in a direction goes to, with its ports.
  abbrev pub IsAddressed : Direction → ℕ → ℕ → ℕ → Type 0
  IsAddressed clnt2serv to to_port from_port =
      (v : Server) × (c : Client) × (get_elem? s.servers dest_id ≡ some v)
      × (get_elem? s.clients source_id ≡ some c)
      × (to ≡ v.ip)
      × (to_port ≡ v.port)
      × (from_port ≡ c.pseudo_port % 2 ^ 16)
  IsAddressed serv2clnt to to_port from_port =
      (c : Client) × (get_elem? s.clients dest_id ≡ some c)
      × (to ≡ c.ip)
      × (to_port ≡ c.port % 2 ^ 16)
      × (from_port ≡ lb.port)

  abbrev IsChosen : Direction → Rewrite → Type 0
  IsChosen dir r = IsAddressed dir r.to_addr r.to_port r.from_port

  translation-IsAddressed :
      (dir : Direction) (r : Rewrite)
      → translation lb dir source_id dest_id s ≡ some r
      → IsAddressed dir r.to_addr r.to_port r.from_port
  unfolding translation
  translation-IsAddressed clnt2serv r e =
      let (v, server, rest) = >>=-eq-some (get_elem? s.servers dest_id) _ e in
      let (c, client, made) = >>=-eq-some (get_elem? s.clients source_id) _ rest in
      subst-some (IsChosen clnt2serv) made (v, c, server, client, refl, refl, refl)
  translation-IsAddressed serv2clnt r e =
      let (c, client, made) = >>=-eq-some (get_elem? s.clients dest_id) _ e in
      subst-some (IsChosen serv2clnt) made (c, client, refl, refl, refl)

module _ (lb : LbAddr) (dir : Direction) (source_id dest_id : ℕ) (s : Balancer) (buf : List ℕ)
    (n : ℕ) (r : Rewrite) (sized : tcp_length buf ≡ some n)
    (chosen : translation lb dir source_id dest_id s ≡ some r) where
  abbrev sent : List ℕ
  sent = fill_checks lb n (rewrite lb r buf)

  pub nat-eq : nat lb dir source_id dest_id s buf ≡ some sent
  unfolding nat
  nat-eq = ground arith

  -- `nat` returns a packet from the balancer's address that is addressed by the tables, if the length
  -- fields of `buf` fit the buffer, the addresses and ports that are chosen are of their width, and
  -- both slots exist: towards a server, to the address and the port in slot `dest_id` of the server
  -- list, from the pseudo port in slot `source_id` of the client list; towards a client, to the
  -- address and the port in slot `dest_id` of the client list, from the port that clients use.
  pub nat-addresses :
      40 ≤ length buf
      → lb.addr < 2 ^ 32
      → r.to_addr < 2 ^ 32
      → r.to_port < 2 ^ 16
      → r.from_port < 2 ^ 16
      → (out : List ℕ) × (nat lb dir source_id dest_id s buf ≡ some out)
        × (saddr out ≡ lb.addr)
        × IsAddressed lb source_id dest_id s dir (daddr out) (dest out) (source out)
  nat-addresses long a b c d =
      let kept = fill_checks-addresses lb n (rewrite lb r buf) in
      let to = kept.1 ∙ daddr-rewrite lb r buf long b in
      let from = kept.2 ∙ source-rewrite lb r buf long d in
      let at = kept.3 ∙ dest-rewrite lb r buf long c in
      (
        sent,
        nat-eq,
        kept.0 ∙ saddr-rewrite lb r buf long a,
        rw (to, at, from) (translation-IsAddressed lb source_id dest_id s dir r chosen),
      )

  sent-IsBytes : IsBytes buf → 40 ≤ length buf → IsBytes sent
  unfolding fill_checks
  sent-IsBytes bytes fits =
      store16-IsBytes _ ip_check_at _
        (store16-IsBytes _ tcp_check_at _ (rewrite-IsBytes lb r buf fits bytes))

  length-sent : 40 ≤ length buf → length sent ≡ length buf
  unfolding fill_checks
  length-sent fits =
      length-store16 _ ip_check_at _
      ∙ length-store16 _ tcp_check_at _
      ∙ length-rewrite lb r buf fits

  tot_len-sent : 40 ≤ length buf → tot_len sent ≡ tot_len buf
  tot_len-sent fits =
      (fill_checks-addresses lb n (rewrite lb r buf)).4 ∙ tot_len-rewrite lb r buf fits

  -- If the IP header of `buf` has no options, its length fields fit the buffer with at least a TCP
  -- header, the buffer has at most 65536 bytes, the balancer's address is of its width and both slots
  -- exist, `nat` returns a packet of which a receiver accepts the TCP checksum, with the pseudo
  -- header of RFC 9293, and the checksum of the IP header, each exactly when adding the carries of
  -- the program's sum once leaves no carry.
  pub nat-Accepts_iff :
      IsBytes buf
      → ihl buf ≡ 5
      → 20 ≤ n
      → length buf ≤ 2 ^ 16
      → lb.addr < 2 ^ 32
      → (out : List ℕ) × (nat lb dir source_id dest_id s buf ≡ some out)
        × (Accepts (tcp_received out) ↔ (folded (segment lb n (rewrite lb r buf)) < 2 ^ 16))
        × (Accepts (take ip_header_size out)
            ↔ (folded (take ip_header_size (rewrite lb r buf)) < 2 ^ 16))
  nat-Accepts_iff bytes plain long small width = (
    sent,
    nat-eq,
    rw received (
        tcp-Accepts_iff lb n (rewrite lb r buf) (rewrite-IsBytes lb r buf fits bytes) long whole
          (rw (length-rewrite lb r buf fits) small) (tcp_check-rewrite lb r buf fits)),
    ip-Accepts_iff lb n (rewrite lb r buf) (rewrite-IsBytes lb r buf fits bytes) long whole
        (rw (length-rewrite lb r buf fits) small) (ip_check-rewrite lb r buf fits),
  )
    where
      fits : 40 ≤ length buf
      fits = omega (arith, tcp_length-le buf n sized)

      whole : 20 + n ≤ length (rewrite lb r buf)
      whole = rw (length-rewrite lb r buf fits) (tcp_length-le buf n sized)

      received : tcp_received sent ≡ segment lb n sent
      received =
          segment-received lb n sent (sent-IsBytes bytes fits) (rw (length-sent fits) fits)
            (omega (arith, tcp_length-le buf n sized))
            ((fill_checks-addresses lb n (rewrite lb r buf)).0 ∙ saddr-rewrite lb r buf fits width)
            (omega (
              arith,
              tcp_length-total buf n sized bytes plain,
              tot_len-sent fits,
              load8-lt buf 2 bytes,
              load8-lt buf 3 bytes,
              load8-lt sent 2 (sent-IsBytes bytes fits),
              load8-lt sent 3 (sent-IsBytes bytes fits),
            ))
