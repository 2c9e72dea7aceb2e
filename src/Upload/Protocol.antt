-- ===== src/Upload/Protocol.antt =====
-- What a client of lab05/lab05_src/fileup_serv_dir/fileup_serv.c sends, without the rows that the
-- server keeps for it.
use io_t_lab.Common.{
  ◌≢◌, ℕ, ◌≡◌, refl, List, [], ◌∷◌, ◌++◌, Option, some, none, Bool-cases, inl, inr, arith, ◌==◌,
  ltb, if◌then◌else◌, ◌>>=◌,
}
use io_t_lab.Echo.{Reading, got, eof, failed}
use io_t_lab.Upload.{Stored, Ready, fresh, client, fd_of}

-- MAX_USER
abbrev pub max_user : ℕ
max_user = 100

-- A descriptor without a client, a client that has sent nothing, and one whose file is open.
pub data Phase : Type 0 where
  idle joined : Phase
  storing : List ℕ → Phase

-- The clients as the protocol has them, and the writes in their order.
pub record Clients : Type 0 where
  pub phase : ℕ → Phase
  pub writes : List Stored

abbrev pub at : {A : Type 0} → ℕ → A → (ℕ → A) → ℕ → A
at i a f j = if j == i then a else f j

pub at_self : {A : Type 0} (i j : ℕ) (a : A) (f : ℕ → A) → j ≡ i → at i a f j ≡ a
at_self i j a f e = elim (Bool-cases (j == i)) [
  | inl same ↦ rw same refl
  | inr other ↦ absurd (ground arith)
]

pub at_other : {A : Type 0} (i j : ℕ) (a : A) (f : ℕ → A) → j ≢ i → at i a f j ≡ f j
at_other i j a f e = elim (Bool-cases (j == i)) [
  | inl same ↦ absurd (ground arith)
  | inr other ↦ rw other refl
]

abbrev pub read_step : List ℕ → Reading → Option (Phase × List Stored)
read_step file (got bytes) = some (storing file, record { file = file; bytes = bytes } ∷ [])
read_step file eof = some (idle, [])
read_step file failed = none

module _ (opened : List ℕ → Option (List ℕ)) where
  -- One event of a client: a connection, a header with a name that can be opened, data, and the
  -- end, in this order. `none` is an event that breaks it.
  abbrev pub step : Phase → Ready → Option (Phase × List Stored)
  step idle (fresh fd) = if ltb fd max_user then some (joined, []) else none
  step joined (fresh fd) = none
  step (storing file) (fresh fd) = none
  step idle (client fd a) = none
  step joined (client fd a) = opened a.filename >>= λ file. some (storing file, [])
  step (storing file) (client fd a) = read_step file a.data_read

  abbrev pub event : Ready → Clients → Option Clients
  event e a = step (a.phase (fd_of opened e)) e >>= λ r.
      some (record { phase = at (fd_of opened e) r.0 a.phase; writes = a.writes ++ r.1 })

  unfoldable pub run_clients : List Ready → Clients → Option Clients
  run_clients [] a = some a
  run_clients (e ∷ es) a = event e a >>= run_clients es

-- No client yet.
abbrev pub no_clients : Clients
no_clients = record { phase = λ fd. idle; writes = [] }
