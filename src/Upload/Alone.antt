-- ===== src/Upload/Alone.antt =====
-- What the other clients of lab05/lab05_src/fileup_serv_dir/fileup_serv.c do to one client's file.
use io_t_lab.Common.{
  ℕ, ◌≡◌, ◌≢◌, ◌∙◌, refl, sym, ap, List, [], ◌∷◌, ◌++◌, Option, some, none, Bool-cases, >>=-eq-some,
  subst-some, inl, inr, arith, ◌==◌, ltb, if◌then◌else◌, All,
}
use mathlib.Core.List.{append-nil}
use io_t_lab.Echo.{Reading, got, eof, failed}
use io_t_lab.Upload.{Stored, Ready, fresh, client, fd_of}
use io_t_lab.Upload.Protocol.{
  max_user, Phase, idle, joined, storing, Clients, at, at_self, at_other, step, read_step, event,
  run_clients,
}
use io_t_lab.Upload.Written.{same_name, same_name-eq, written, written-append}

stored_name : Phase → List ℕ
stored_name (storing file) = file
stored_name idle = []
stored_name joined = []

storing-inj : {f g : List ℕ} → storing f ≡ storing g → f ≡ g
unfolding stored_name
storing-inj e = ap stored_name e

module _ (opened : List ℕ → Option (List ℕ)) where
  -- The events of one client.
  abbrev pub only : ℕ → List Ready → List Ready
  only fd [] = []
  only fd (e ∷ es) = let rest = only fd es in if fd_of opened e == fd then e ∷ rest else rest

  -- What an event opens.
  abbrev pub opens : Ready → Option (List ℕ)
  opens (fresh fd) = none
  opens (client fd a) = opened a.filename

  module _ (fd : ℕ) (file : List ℕ) where
    -- No other client's event names a file that is opened as this one.
    abbrev pub IsOwn : List Ready → Type 0
    IsOwn es = All (λ e. opens e ≡ some file → fd_of opened e ≡ fd) es

    abbrev Away : Phase × List Stored → Type 0
    Away r = (r.0 ≢ storing file) × (written file r.1 ≡ [])

    read_step-Away :
        (g : List ℕ) (reading : Reading) (r : Phase × List Stored)
        → g ≢ file
        → read_step g reading ≡ some r
        → Away r
    read_step-Away g (got bytes) r away ran = subst-some Away ran (
      λ e. away (storing-inj e),
      elim (Bool-cases (same_name g file)) [
        | inl same ↦ absurd (away (same_name-eq g file same))
        | inr other ↦ rw other refl
      ],
    )
    read_step-Away g eof r away ran = subst-some Away ran (λ e. ground arith, refl)
    read_step-Away g failed r away ran = absurd (ground arith)

    -- A client that does not have the file does not write to it, and does not get it but by its
    -- name.
    step-Away :
        (e : Ready) (p : Phase) (r : Phase × List Stored)
        → p ≢ storing file
        → opens e ≢ some file
        → step opened p e ≡ some r
        → Away r
    step-Away (fresh j) idle r away unopened ran = elim (Bool-cases (ltb j max_user)) [
      | inl fits ↦ subst-some Away (rw fits at ran) (λ e. ground arith, refl)
      | inr big ↦ absurd (ground arith)
    ]
    step-Away (fresh j) joined r away unopened ran = absurd (ground arith)
    step-Away (fresh j) (storing g) r away unopened ran = absurd (ground arith)
    step-Away (client j a) idle r away unopened ran = absurd (ground arith)
    step-Away (client j a) joined r away unopened ran =
        let (g, named, made) = >>=-eq-some (opened a.filename) _ ran in
        subst-some Away made (λ e. unopened (named ∙ ap some (storing-inj e)), refl)
    step-Away (client j a) (storing g) r away unopened ran =
        read_step-Away g a.data_read r (λ e. away (ap storing e)) ran

    -- What the others do leaves the client and its file alone.
    pub record IsAlone (a c : Clients) : Type 0 where
      pub phase : c.phase fd ≡ a.phase fd
      pub owner : (j : ℕ) → a.phase j ≡ storing file → j ≡ fd
      pub same : written file c.writes ≡ written file a.writes

    event-other :
        (e : Ready) (a b c : Clients)
        → (opens e ≡ some file → fd_of opened e ≡ fd)
        → fd_of opened e ≢ fd
        → IsAlone a c
        → event opened e a ≡ some b
        → IsAlone b c
    event-other e a b c own other h ran =
        let j = fd_of opened e in
        let (r, stepped, made) = >>=-eq-some (step opened (a.phase j) e) _ ran in
        let (away, quiet) =
          step-Away e (a.phase j) r (λ k. other (h.owner j k)) (λ k. other (own k)) stepped in
        subst-some (λ x. IsAlone x c) made
          (record {
            phase = h.phase ∙ sym (at_other j fd r.0 a.phase (λ k. other (sym k)));
            owner = λ i k. elim (Bool-cases (i == j)) [
              | inl here ↦ absurd (away (rw here at k))
              | inr there ↦ h.owner i (rw there at k)
            ];
            same =
                h.same
                ∙ sym (
                    written-append file a.writes r.1
                    ∙ ap (λ bs. written file a.writes ++ bs) quiet
                    ∙ append-nil (written file a.writes));
          })

    -- The client's own event does the same without the others.
    event-own :
        (e : Ready) (a b c : Clients)
        → fd_of opened e ≡ fd
        → IsAlone a c
        → event opened e a ≡ some b
        → (d : Clients) × (event opened e c ≡ some d) × IsAlone b d
    event-own e a b c mine h ran =
        let j = fd_of opened e in
        let (r, stepped, made) = >>=-eq-some (step opened (a.phase j) e) _ ran in
        let there : c.phase j ≡ a.phase j = ap c.phase mine ∙ h.phase ∙ ap a.phase (sym mine) in
        let d : Clients = record { phase = at j r.0 c.phase; writes = c.writes ++ r.1 } in
        let alone : IsAlone (record { phase = at j r.0 a.phase; writes = a.writes ++ r.1 }) d =
          record {
            phase = at_self j fd r.0 c.phase (sym mine) ∙ sym (at_self j fd r.0 a.phase (sym mine));
            owner = λ i k. elim (Bool-cases (i == j)) [
              | inl here ↦ ground (arith, mine)
              | inr later ↦ h.owner i (rw later at k)
            ];
            same =
                written-append file c.writes r.1
                ∙ ap (◌++ written file r.1) h.same
                ∙ sym (written-append file a.writes r.1);
          } in
        (d, rw (there, stepped) refl, subst-some (λ x. IsAlone x d) made alone)

    -- So a client's file is what it is when the client is alone with the server.
    pub run_clients-only :
        (es : List Ready) (a b c : Clients)
        → IsOwn es
        → IsAlone a c
        → run_clients opened es a ≡ some b
        → (d : Clients) × (run_clients opened (only fd es) c ≡ some d) × IsAlone b d
    unfolding run_clients
    run_clients-only [] a b c own h ran = (c, refl, subst-some (λ x. IsAlone x c) ran h)
    run_clients-only (e ∷ es) a b c own h ran =
        let (a', first, rest) = >>=-eq-some (event opened e a) (run_clients opened es) ran in
        elim (Bool-cases (fd_of opened e == fd)) [
          | inl mine ↦
              let (c', went, h') = event-own e a a' c (ground arith) h first in
              let (d, all, h'') = run_clients-only es a' b c' own.1 h' rest in
              (d, rw (mine, went) all, h'')
          | inr other ↦
              let h' = event-other e a a' c own.0 (ground arith) h first in
              let (d, all, h'') = run_clients-only es a' b c own.1 h' rest in (d, rw other all, h'')
        ]
