-- ===== src/Sockets/EchoServ.antt =====
-- lab06/TCPSocket_Class/EchoSelectServ.cpp: the loop over SocketUtil::Select.
pub mod Kept
use io_t_lab.Common.{ℕ, List, [], ◌∷◌, ◌++◌, Option, none, some, ◌>>=◌, Bool, ◌==◌, if◌then◌else◌}
use io_t_lab.Echo.{Reading, got, eof, failed, Echoed}
use io_t_lab.Sockets.{SelectCall, Vectors, select_sockets}

-- readBlockSockets and readableSockets, and what was sent. No two sockets have one descriptor, since
-- none is closed.
pub record Serv : Type 0 where
  pub sockets : List (Option ℕ)
  pub readable : List (Option ℕ)
  pub written : List Echoed

-- What `select`, Accept and each client's Receive return in a round.
pub record Turn : Type 0 where
  pub select : SelectCall
  pub accepted : Option ℕ
  pub reading : ℕ → Reading

module _ (listener : ℕ) where
  -- Lines 34-49: the end of the stream and errors are passed over.
  unfoldable pub serve_client : ℕ → Reading → Serv → Serv
  serve_client fd (got bytes) s = record s {
    written = s.written ++ record { fd = fd; bytes = bytes } ∷ [];
  }
  serve_client fd eof s = s
  serve_client fd failed s = s

  unfoldable pub serve_socket : Turn → ℕ → Serv → Serv
  unfolding serve_client
  serve_socket t fd s =
      if fd == listener
      then record s { sockets = s.sockets ++ t.accepted ∷ [] }
      else serve_client fd (t.reading fd) s

  -- The loop of lines 32-50; a null pointer is followed.
  unfoldable pub serve_sockets : Turn → List (Option ℕ) → Serv → Option Serv
  unfolding serve_socket
  serve_sockets t [] s = some s
  serve_sockets t (none ∷ rest) s = none
  serve_sockets t (some fd ∷ rest) s = serve_sockets t rest (serve_socket t fd s)

  unfoldable pub serve_selected : Turn → Serv → ℕ → List (Option ℕ) → Option Serv
  unfolding serve_sockets
  serve_selected t s count readable =
      let s' = record s { readable = readable } in
      if count == 0 then some s' else serve_sockets t readable s'

  -- Lines 28-50. Only 0 starts the next round at once: after -1 the readable sockets are those of the
  -- round before.
  unfoldable pub serve_turn : Turn → Serv → Option Serv
  unfolding serve_selected
  serve_turn t s = do
    r ←
        select_sockets t.select (record { reads = some s.sockets; writes = none; excepts = none })
          (record { reads = some s.readable; writes = none; excepts = none })
    elim r.1.reads [ none ↦ none | some readable ↦ serve_selected t s r.0 readable ]

  unfoldable pub run_serv : List Turn → Serv → Option Serv
  unfolding serve_turn
  run_serv [] s = some s
  run_serv (t ∷ ts) s = serve_turn t s >>= run_serv ts
