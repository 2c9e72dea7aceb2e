-- ===== src/Common/Words.antt =====
-- C integers as bit patterns. An `int` is its pattern below 2 ^ 32, so -1 is 2 ^ 32 - 1.
use Prim.Native.Nat.{ℕ, ◌+◌, ◌-◌, ◌*◌, ◌/◌, ◌%◌, ◌^◌}
use mathlib.Core.Bool.{Bool}
use io_t_lab.Common.Tests.{ltb}

abbrev pub u8 : ℕ → ℕ
u8 n = n % 2 ^ 8

abbrev pub u16 : ℕ → ℕ
u16 n = n % 2 ^ 16

abbrev pub u32 : ℕ → ℕ
u32 n = n % 2 ^ 32

abbrev pub minus_one : ℕ
minus_one = 2 ^ 32 - 1

-- `i++` and `i--` on an `int`.
abbrev pub incr : ℕ → ℕ
incr i = (i + 1) % 2 ^ 32

abbrev pub decr : ℕ → ℕ
decr i = (i + 2 ^ 32 - 1) % 2 ^ 32

-- The order of `int`s: adding 2 ^ 31 puts the negative numbers below the others.
abbrev pub signed_key : ℕ → ℕ
signed_key a = (a + 2 ^ 31) % 2 ^ 32

-- `a < b` on two `int`s.
abbrev pub signed_lt : ℕ → ℕ → Bool
signed_lt a b = ltb (signed_key a) (signed_key b)

-- `htons` and `ntohs` of a little-endian machine: the two bytes change places.
abbrev pub swap16 : ℕ → ℕ
swap16 v = v % 256 * 256 + v / 256 % 256

-- `htonl` and `ntohl`.
abbrev pub swap32 : ℕ → ℕ
swap32 v = v % 256 * 2 ^ 24 + v / 256 % 256 * 2 ^ 16 + v / 2 ^ 16 % 256 * 256 + v / 2 ^ 24 % 256
