-- ===== src/Sockets/EchoServ/Kept.antt =====
-- lab06/TCPSocket_Class/EchoSelectServ.cpp keeps every socket that it has ever accepted.
use io_t_lab.Common.{
  ℕ, ◌≡◌, ◌∙◌, refl, ap, sym, List, [], ◌∷◌, ◌++◌, Option, none, some, ◌>>=◌, Bool, false, ◌==◌,
  Bool-cases, inl, inr, All, All-append, signed_lt,
}
use mathlib.Core.List.{append-nil, append_assoc}
use io_t_lab.Echo.{Reading, got, eof, failed}
use io_t_lab.Sockets.Ready.{IsOpen, IsSelect, ready_sockets, select_sockets-filled}
use io_t_lab.Sockets.EchoServ.{
  Serv, Turn, serve_client, serve_socket, serve_sockets, serve_selected, serve_turn, run_serv,
}

abbrev pub IsSound : Serv → Type 0
IsSound s = All IsOpen s.sockets × All IsOpen s.readable

-- `select` keeps to what it documents, and Accept returns a socket that fits.
abbrev pub IsTurn : Turn → Type 0
IsTurn t =
    ((ready : ℕ → Bool) × IsSelect ready (λ fd. false) (λ fd. false) t.select) × IsOpen t.accepted

-- The server goes on with sound vectors, and with every socket that it had.
abbrev pub Keeps : Serv → Option Serv → Type 0
Keeps s none = ⊥
Keeps s (some t) = IsSound t × ((more : List (Option ℕ)) × (t.sockets ≡ s.sockets ++ more))

ready_sockets-All :
    (ready : ℕ → Bool) (sockets : List (Option ℕ))
    → All IsOpen sockets
    → All IsOpen (ready_sockets ready sockets)
ready_sockets-All ready [] h = tt
ready_sockets-All ready (none ∷ sockets) h = absurd h.0
ready_sockets-All ready (some fd ∷ sockets) h =
    let rest = ready_sockets-All ready sockets h.1 in
    elim (Bool-cases (ready fd)) [ inl r ↦ rw r (h.0, rest) | inr n ↦ rw n rest ]

module _ (listener : ℕ) where
  serve_client-Keeps :
      (fd : ℕ) (r : Reading) (s : Serv) → IsSound s → Keeps s (some (serve_client listener fd r s))
  unfolding serve_client
  serve_client-Keeps fd (got bytes) s h = (h, ([], sym (append-nil s.sockets)))
  serve_client-Keeps fd eof s h = (h, ([], sym (append-nil s.sockets)))
  serve_client-Keeps fd failed s h = (h, ([], sym (append-nil s.sockets)))

  serve_socket-Keeps :
      (t : Turn) (fd : ℕ) (s : Serv)
      → IsOpen t.accepted
      → IsSound s
      → Keeps s (some (serve_socket listener t fd s))
  unfolding serve_socket
  serve_socket-Keeps t fd s a h = elim (Bool-cases (fd == listener)) [
    | inl l ↦
        rw l (
          (All-append IsOpen s.sockets (t.accepted ∷ []) h.0 (a, tt), h.1),
          (t.accepted ∷ [], refl),
        )
    | inr c ↦ rw c (serve_client-Keeps fd (t.reading fd) s h)
  ]

  Keeps->>= : (s t : Serv) (m : Option Serv) → Keeps s (some t) → Keeps t m → Keeps s m
  Keeps->>= s t none k l = l
  Keeps->>= s t (some u) k l = (
    l.0,
    (k.1.0 ++ l.1.0, l.1.1 ∙ ap (λ xs. xs ++ l.1.0) k.1.1 ∙ append_assoc s.sockets k.1.0 l.1.0),
  )

  serve_sockets-Keeps :
      (t : Turn) (sockets : List (Option ℕ)) (s : Serv)
      → IsOpen t.accepted
      → All IsOpen sockets
      → IsSound s
      → Keeps s (serve_sockets listener t sockets s)
  unfolding serve_sockets
  serve_sockets-Keeps t [] s a o h = (h, ([], sym (append-nil s.sockets)))
  serve_sockets-Keeps t (none ∷ rest) s a o h = absurd o.0
  serve_sockets-Keeps t (some fd ∷ rest) s a o h =
      let one = serve_socket-Keeps t fd s a h in
      Keeps->>= s (serve_socket listener t fd s) _ one
        (serve_sockets-Keeps t rest (serve_socket listener t fd s) a o.1 one.0)

  serve_selected-Keeps :
      (t : Turn) (s : Serv) (count : ℕ) (readable : List (Option ℕ))
      → IsOpen t.accepted
      → All IsOpen readable
      → IsSound s
      → Keeps s (serve_selected listener t s count readable)
  unfolding serve_selected
  serve_selected-Keeps t s count readable a o h = elim (Bool-cases (count == 0)) [
    | inl idle ↦ rw idle ((h.0, o), ([], sym (append-nil s.sockets)))
    | inr busy ↦
        rw busy (serve_sockets-Keeps t readable (record s { readable = readable }) a o (h.0, o))
  ]

  serve_turn-Keeps :
      (t : Turn) (s : Serv) → IsTurn t → IsSound s → Keeps s (serve_turn listener t s)
  unfolding serve_turn
  serve_turn-Keeps t s ((ready, documented), a) h =
      let (count, ran) =
        select_sockets-filled ready (λ fd. false) (λ fd. false) t.select
          (record { reads = some s.sockets; writes = none; excepts = none })
          (record { reads = some s.readable; writes = none; excepts = none }) documented h.0 tt
          tt in
      rw ran (elim (Bool-cases (signed_lt 0 count)) [
        | inl some_ready ↦ rw some_ready (
            serve_selected-Keeps t s count (ready_sockets ready s.sockets) a
              (ready_sockets-All ready s.sockets h.0) h)
        | inr no_more ↦ rw no_more (serve_selected-Keeps t s count s.readable a h.1 h)
      ])

  -- If `select` keeps to what it documents and Accept always returns a socket that fits a set, the
  -- server never follows a null pointer, and at the end of any number of rounds it still watches
  -- every socket that it had, closed or not.
  pub run_serv-Keeps :
      (ts : List Turn) (s : Serv) → All IsTurn ts → IsSound s → Keeps s (run_serv listener ts s)
  unfolding run_serv
  run_serv-Keeps [] s h sound = (sound, ([], sym (append-nil s.sockets)))
  run_serv-Keeps (t ∷ ts) s h sound =
      continue (serve_turn listener t s) (serve_turn-Keeps t s h.0 sound)
        (λ u. run_serv-Keeps ts u h.1)
    where
      continue :
          (m : Option Serv)
          → Keeps s m
          → ((u : Serv) → IsSound u → Keeps u (run_serv listener ts u))
          → Keeps s (m >>= run_serv listener ts)
      continue none k next = absurd k
      continue (some u) k next = Keeps->>= s u (run_serv listener ts u) k (next u k.0)
