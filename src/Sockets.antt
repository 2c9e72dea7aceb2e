-- ===== src/Sockets.antt =====
-- lab06/lib/SocketUtil.cpp and lab06/lib/TCPSocket.cpp: the sets of SocketUtil::Select and the error
-- codes of a socket's calls. A TCPSocketPtr is its mSocket, none for nullptr. A result of none is
-- undefined behaviour: a null pointer followed, or FD_SET of a descriptor that does not fit.
pub mod Ready
pub mod EchoServ
mod Tests
use io_t_lab.Common.{
  ℕ, ◌+◌, ◌-◌, ◌^◌, List, [], ◌∷◌, ◌++◌, Option, none, some, ◌>>=◌, Bool, true, false, ◌&&◌, ltb,
  ◌==◌, signed_lt, minus_one, u32, if◌then◌else◌,
}
use io_t_lab.Echo.Select.{fd_setsize}

-- `-SocketUtil::GetLastError()`, with errno, for a call that returned a negative `int`.
abbrev pub error_or : ℕ → ℕ → ℕ
error_or errno returned = if signed_lt returned 0 then u32 (2 ^ 32 - errno) else returned

abbrev pub zero_or_error : ℕ → ℕ → ℕ
zero_or_error errno returned = if signed_lt returned 0 then u32 (2 ^ 32 - errno) else 0

-- TCPSocket::Send, Receive, Connect, Listen, Bind and Accept on what the calls return.
abbrev pub send : ℕ → ℕ → ℕ
send = error_or

abbrev pub receive : ℕ → ℕ → ℕ
receive = error_or

abbrev pub connect : ℕ → ℕ → ℕ
connect = zero_or_error

abbrev pub listen : ℕ → ℕ → ℕ
listen = zero_or_error

abbrev pub bind : ℕ → ℕ → ℕ
bind errno returned = if returned == 0 then 0 else errno

abbrev pub accept : ℕ → Option ℕ
accept returned = if returned == minus_one then none else some returned

-- FD_ISSET
abbrev pub is_set : ℕ → List ℕ → Bool
is_set fd [] = false
is_set fd (x ∷ xs) = if fd == x then true else is_set fd xs

abbrev pub max : ℕ → ℕ → ℕ
max a b = if ltb a b then b else a

-- The loop of FillSetFromVector, with the set and ioNaxNfds.
unfoldable pub fill_sockets : List (Option ℕ) → List ℕ → ℕ → Option (List ℕ × ℕ)
fill_sockets [] set nfds = some (set, nfds)
fill_sockets (none ∷ sockets) set nfds = none
fill_sockets (some fd ∷ sockets) set nfds =
    let rest = fill_sockets sockets (fd ∷ set) (max nfds fd) in
    if ltb fd fd_setsize then rest else none

unfoldable pub fill_set_from_vector : Option (List (Option ℕ)) → ℕ → Option (Option (List ℕ) × ℕ)
unfolding fill_sockets
fill_set_from_vector none nfds = some (none, nfds)
fill_set_from_vector (some sockets) nfds =
    fill_sockets sockets [] nfds >>= λ r. some (some r.0, r.1)

-- The loop of FillVectorFromSet.
abbrev pub keep_set : List ℕ → List (Option ℕ) → Option (List (Option ℕ))
keep_set set [] = some []
keep_set set (none ∷ sockets) = none
keep_set set (some fd ∷ sockets) =
    keep_set set sockets >>= λ rest. some (if is_set fd set then some fd ∷ rest else rest)

unfoldable pub fill_vector_from_set :
    Option (List (Option ℕ)) → Option (List (Option ℕ)) → List ℕ → Option (Option (List (Option ℕ)))
fill_vector_from_set (some out) (some sockets) set =
    keep_set set sockets >>= λ kept. some (some kept)
fill_vector_from_set out sockets set = some out

-- What `select` returns, and what it leaves in the three sets.
pub record Selected : Type 0 where
  pub count : ℕ
  pub read : List ℕ
  pub write : List ℕ
  pub except : List ℕ

-- The three vectors given or filled; none for a null pointer.
pub record Vectors : Type 0 where
  pub reads : Option (List (Option ℕ))
  pub writes : Option (List (Option ℕ))
  pub excepts : Option (List (Option ℕ))

abbrev pub SelectCall : Type 0
SelectCall = ℕ → Option (List ℕ) → Option (List ℕ) → Option (List ℕ) → Selected

-- Lines 48-50.
unfoldable pub fill_vectors : Selected → Vectors → Vectors → Option Vectors
unfolding fill_vector_from_set
fill_vectors done given out = do
  reads ← fill_vector_from_set out.reads given.reads done.read
  writes ← fill_vector_from_set out.writes given.writes done.write
  excepts ← fill_vector_from_set out.excepts given.excepts done.except
  some (record { reads = reads; writes = writes; excepts = excepts })

-- SocketUtil::Select
unfoldable pub select_sockets : SelectCall → Vectors → Vectors → Option (ℕ × Vectors)
unfolding fill_set_from_vector fill_vectors
select_sockets select given out = do
  r ← fill_set_from_vector given.reads 0
  w ← fill_set_from_vector given.writes r.1
  e ← fill_set_from_vector given.excepts w.1
  let done = select (e.1 + 1) r.0 w.0 e.0
  if signed_lt 0 done.count
      then (fill_vectors done given out >>= λ vectors. some (done.count, vectors))
      else some (done.count, out)
