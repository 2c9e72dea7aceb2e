-- ===== src/Balancer/Invariant/Reports.antt =====
-- The invariant through the events of connected servers.
use io_t_lab.Common.{
  ℕ, ◌≡◌, ◌≢◌, refl, sym, ◌∙◌, List, [], ◌∷◌, Option, some, none, true, arith, length, length-set,
  inl, inr, Option-cases, subst-some, get_elem?, find_index,
}
use io_t_lab.Balancer.{Balancer, no_server}
use io_t_lab.Balancer.Servers.{delete_server_node}
use io_t_lab.Balancer.Ready.{
  Progress, failed, usage, Ready, Ending, closed, again, finish, has_sock, report, read_loop,
  clear_clients, close_server, handle_ready,
}
use io_t_lab.Balancer.Tables.{
  active, active_count-le, active-eq-is_active, active-set_same, active-set_ne, active_count-clear,
  active-of_sock, length-clear_clients, clear_clients-kept, server_at, clear_clients-IsPaired,
}
use io_t_lab.Balancer.Invariant.{IsSound}
use io_t_lab.Balancer.Invariant.Parts.{set_server-IsSound}

pub report-IsSound :
    (id : Option ℕ) (load : ℕ) (s : Balancer) {t : Balancer}
    → report id load s ≡ some t
    → IsSound s
    → IsSound t
unfolding report
report-IsSound none load s e ok = absurd (ground arith)
report-IsSound (some i) load s e ok = elim (Option-cases (get_elem? s.servers i)) [
  | inl fault ↦ absurd (ground arith)
  | inr (v, at) ↦ subst-some IsSound (rw at at e) (set_server-IsSound s i v _ at refl ok)
]

pub read_loop-IsSound :
    (id : Option ℕ) (ps : List Progress) (s : Balancer) {t : Balancer}
    → read_loop id ps s ≡ some t
    → IsSound s
    → IsSound t
unfolding read_loop
read_loop-IsSound id [] s e ok = subst-some IsSound e ok
read_loop-IsSound id (failed ∷ ps) s e ok = read_loop-IsSound id ps s e ok
read_loop-IsSound id (usage load ∷ ps) s e ok = elim (Option-cases (report id load s)) [
  | inl fault ↦ absurd (ground arith)
  | inr (u, said) ↦ read_loop-IsSound id ps u (rw said at e) (report-IsSound id load s said ok)
]

-- Closing a connected server.
pub close_server-IsSound :
    (i : ℕ) (s : Balancer) {t : Balancer}
    → close_server (some i) s ≡ some t
    → active s.servers i ≡ true
    → IsSound s
    → IsSound t
unfolding close_server delete_server_node
close_server-IsSound i s e up ok = subst-some IsSound e (record {
  servers_ok = record {
    slots = length-set s.servers i no_server ∙ ok.servers_ok.slots;
    counted = omega (
      arith,
      ok.servers_ok.counted,
      active_count-clear s.servers i up,
      active_count-le s.servers,
      ok.servers_ok.slots,
    );
    recent = ok.servers_ok.recent;
  };
  slots = lengths.0 ∙ ok.slots;
  rows = lengths.1 ∙ ok.rows;
  bound = λ j used.
      let kept =
        clear_clients-kept i s.clients s.table s.clnt_cnt j (ok.slots ∙ sym ok.rows) used in
      rw kept.1 (
        active-set_ne s.servers i (server_at s.table j) no_server (λ e. kept.2 (sym e))
        ∙ ok.bound j kept.0);
  marked = λ j used.
      let kept =
        clear_clients-kept i s.clients s.table s.clnt_cnt j (ok.slots ∙ sym ok.rows) used in
      rw kept.3 (ok.marked j kept.0);
  paired = clear_clients-IsPaired i s.clients s.table s.clnt_cnt ok.paired;
})
  where
    lengths :
        (length (clear_clients i s.clients s.table s.clnt_cnt).clients ≡ length s.clients)
        × (length (clear_clients i s.clients s.table s.clnt_cnt).table ≡ length s.table)
    lengths = length-clear_clients i s.clients s.table s.clnt_cnt

-- Reports leave the sockets alone.
pub report-active :
    (id : Option ℕ) (load : ℕ) (s : Balancer) (j : ℕ) {t : Balancer}
    → report id load s ≡ some t
    → active t.servers j ≡ active s.servers j
unfolding report
report-active none load s j e = absurd (ground arith)
report-active (some i) load s j e = elim (Option-cases (get_elem? s.servers i)) [
  | inl fault ↦ absurd (ground arith)
  | inr (v, at) ↦
      subst-some (λ (u : Balancer). active u.servers j ≡ active s.servers j) (rw at at e)
        (active-set_same s.servers i j _ (active-eq-is_active s.servers i at))
]

pub read_loop-active :
    (id : Option ℕ) (ps : List Progress) (s : Balancer) (j : ℕ) {t : Balancer}
    → read_loop id ps s ≡ some t
    → active t.servers j ≡ active s.servers j
unfolding read_loop
read_loop-active id [] s j e =
    subst-some (λ (u : Balancer). active u.servers j ≡ active s.servers j) e refl
read_loop-active id (failed ∷ ps) s j e = read_loop-active id ps s j e
read_loop-active id (usage load ∷ ps) s j e = elim (Option-cases (report id load s)) [
  | inl fault ↦ absurd (ground arith)
  | inr (u, said) ↦ read_loop-active id ps u j (rw said at e) ∙ report-active id load s j said
]

finish-IsSound :
    (ending : Ending) (fd : ℕ) (s u : Balancer) {t : Balancer}
    → fd ≢ 0
    → ((j : ℕ) → active u.servers j ≡ active s.servers j)
    → finish ending (find_index (has_sock fd) s.servers) u ≡ some t
    → IsSound u
    → IsSound t
unfolding finish
finish-IsSound again fd s u named same e ok = subst-some IsSound e ok
finish-IsSound closed fd s u named same e ok =
    elim (Option-cases (find_index (has_sock fd) s.servers)) [
      | inl unset ↦ absurd (unset_faults (rw unset at e))
      | inr (i, found) ↦
          close_server-IsSound i u (rw found at e)
            (same i ∙ active-of_sock fd s.servers i named found) ok
    ]
  where
    unset_faults : {t : Balancer} → close_server none u ≡ some t → ⊥
    unset_faults e = unfold close_server in ground arith

pub handle_ready-IsSound :
    (r : Ready) (s : Balancer) {t : Balancer}
    → r.fd ≢ 0
    → handle_ready r s ≡ some t
    → IsSound s
    → IsSound t
handle_ready-IsSound r s named e ok = elim (Option-cases (read_loop id r.progress s)) [
  | inl fault ↦ absurd (unfold handle_ready in ground arith)
  | inr (u, done) ↦
      finish-IsSound r.ending r.fd s u named (λ j. read_loop-active id r.progress s j done)
        (unfold handle_ready in ground arith) (read_loop-IsSound id r.progress s done ok)
]
  where
    id : Option ℕ
    id = find_index (has_sock r.fd) s.servers
