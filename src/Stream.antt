-- ===== src/Stream.antt =====
-- lab06/include/MemoryStream.h and lab06/lib/MemoryStream.cpp: streams of bytes and bits. `mBuffer`
-- is the list of the bytes of its block, as many as `mCapacity` says; `none` is undefined behaviour.
-- A mask `(1 << k) - 1` and shifts are written as remainders, quotients and products of powers of 2.
pub mod Bits
pub mod Output
pub mod Partial
pub mod Input
pub mod Swap
mod Tests
use Prim.Native.Nat.{bit_or}
use io_t_lab.Common.{
  c_string, ℕ, zero, suc, ◌+◌, ◌-◌, ◌*◌, ◌/◌, ◌%◌, ◌^◌, List, [], ◌∷◌, ◌++◌, Option, none, some,
  ◌>>=◌, Bool, ◌&&◌, ltb, leb, ◌==◌, if◌then◌else◌, get_elem?, set, take, drop, length, u8, u32,
}

-- sizeof(size_t) and the other widths, in bytes; the machine is little-endian.
abbrev pub le_bytes : ℕ → ℕ → List ℕ
le_bytes zero v = []
le_bytes (suc width) v = v % 256 ∷ le_bytes width (v / 256)

abbrev pub from_le : List ℕ → ℕ
from_le [] = 0
from_le (b ∷ bs) = b + 256 * from_le bs

pub record OutputMemoryStream : Type 0 where
  pub buffer : List ℕ
  pub head : ℕ
  pub capacity : ℕ
  pub bit_head : ℕ

abbrev pub max : ℕ → ℕ → ℕ
max a b = if ltb a b then b else a

-- `memcpy`
unfoldable pub copy_in : List ℕ → ℕ → List ℕ → Option (List ℕ)
copy_in bytes at buf =
    if leb (at + length bytes) (length buf)
    then some (take at buf ++ (bytes ++ drop (at + length bytes) buf))
    else none

-- `fresh i` is what byte `i` of a block holds before anything is written there.
module _ (fresh : ℕ → ℕ) where
  abbrev pub garbage : ℕ → ℕ → List ℕ
  garbage from zero = []
  garbage from (suc n) = fresh from ∷ garbage (suc from) n

  -- `realloc` keeps what fits.
  unfoldable pub realloc_buffer : ℕ → OutputMemoryStream → OutputMemoryStream
  realloc_buffer n s = record s {
    buffer = take n s.buffer ++ garbage s.capacity (n - s.capacity);
    capacity = n;
  }

  unfoldable pub new_stream : OutputMemoryStream
  unfolding realloc_buffer
  new_stream = realloc_buffer 32 (record { buffer = []; head = 0; capacity = 0; bit_head = 0 })

  -- The test in `Write` and `WriteBits`.
  unfoldable pub make_room : ℕ → OutputMemoryStream → OutputMemoryStream
  unfolding realloc_buffer
  make_room result_head s =
      if ltb s.capacity result_head
      then realloc_buffer (max (u32 (s.capacity * 2)) result_head) s
      else s

  unfoldable pub write : List ℕ → OutputMemoryStream → Option OutputMemoryStream
  unfolding make_room copy_in
  write bytes s = do
    let result_head = u32 (s.head + u32 (length bytes))
    let t = make_room result_head s
    buf ← copy_in bytes t.head t.buffer
    some (record t { buffer = buf; head = result_head })

-- Line 45: what the `|` leaves in the byte at `mHead`. Lines 47-48: the byte behind it.
unfoldable pub first_part : ℕ → ℕ → ℕ → ℕ
first_part at v byte = bit_or byte (v % 2 ^ (8 - at) * 2 ^ at)

unfoldable pub second_part : ℕ → ℕ → ℕ
second_part at v = v / 2 ^ (8 - at)

-- Lines 52-53.
unfoldable pub whole_part : ℕ → ℕ → ℕ → ℕ
whole_part at v byte = bit_or byte (u8 (v * 2 ^ at))

-- A store outside the block is undefined; the test before it lets `result_head` be the capacity.
unfoldable pub put_byte : ℕ → ℕ → List ℕ → Option (List ℕ)
put_byte i v buf = if ltb i (length buf) then some (set buf i v) else none

module _ (fresh : ℕ → ℕ) where
  -- Lines 33-50, for `bits` of at most 8.
  unfoldable pub write_over : ℕ → OutputMemoryStream → Option OutputMemoryStream
  unfolding make_room first_part second_part put_byte
  write_over v s = do
    let result_head = u32 (s.head + 1)
    let t = make_room fresh result_head s
    byte ← get_elem? t.buffer t.head
    buf ← put_byte t.head (first_part s.bit_head v byte) t.buffer
    buf' ← put_byte result_head (second_part s.bit_head v) buf
    some (record t { buffer = buf'; head = result_head })

  -- Lines 51-55.
  unfoldable pub write_within : ℕ → OutputMemoryStream → Option OutputMemoryStream
  unfolding whole_part put_byte
  write_within v s = do
    byte ← get_elem? s.buffer s.head
    buf ← put_byte s.head (whole_part s.bit_head v byte) s.buffer
    some (record s { buffer = buf })

  unfoldable pub write_bits : ℕ → ℕ → OutputMemoryStream → Option OutputMemoryStream
  unfolding write_over write_within
  write_bits v bits s = do
    t ← if ltb 7 (s.bit_head + bits) then write_over v s else write_within v s
    some (record t { bit_head = (s.bit_head + bits) % 8 })

-- `GetLength`, and the bytes that it makes the socket send.
unfoldable pub get_length : OutputMemoryStream → ℕ
get_length s = if s.bit_head == 0 then s.head else u32 (s.head + 1)

-- `mCapacity` is only used by `GetRemainingDataSize`: `Read` tests it and does nothing.
pub record InputMemoryStream : Type 0 where
  pub buffer : List ℕ
  pub head : ℕ
  pub capacity : ℕ
  pub bit_head : ℕ

unfoldable pub open_stream : List ℕ → ℕ → InputMemoryStream
open_stream buf count = record { buffer = buf; head = 0; capacity = count; bit_head = 0 }

unfoldable pub read : ℕ → InputMemoryStream → Option (List ℕ × InputMemoryStream)
read n s =
    if leb (s.head + n) (length s.buffer)
    then some (take n (drop s.head s.buffer), record s { head = u32 (s.head + n) })
    else none

-- `(byte & ~((1 << at) - 1)) >> at` as a `uint8_t`, where `char` is signed or not: a negative byte
-- brings copies of its sign.
unfoldable pub upper_bits : Bool → ℕ → ℕ → ℕ
upper_bits char_signed at byte =
    if char_signed && leb 128 byte then 256 - 2 ^ (8 - at) + byte / 2 ^ at else byte / 2 ^ at

-- Lines 95-97.
unfoldable pub inner_bits : ℕ → ℕ → ℕ → ℕ
inner_bits at bits byte = byte / 2 ^ at % 2 ^ bits

module _ (char_signed : Bool) where
  -- Lines 88-92.
  unfoldable pub join_parts : ℕ → ℕ → ℕ → ℕ → ℕ
  unfolding upper_bits
  join_parts at bits byte next =
      bit_or (u8 (next % 2 ^ u8 (bits + at + 256 - 8) * 2 ^ (8 - at)))
        (upper_bits char_signed at byte)

  -- Lines 84-93.
  unfoldable pub read_over : ℕ → InputMemoryStream → Option (ℕ × InputMemoryStream)
  unfolding join_parts
  read_over bits s = do
    byte ← get_elem? s.buffer s.head
    next ← get_elem? s.buffer (u32 (s.head + 1))
    some (join_parts s.bit_head bits byte next, record s { head = u32 (s.head + 1) })

  -- Lines 94-98.
  unfoldable pub read_within : ℕ → InputMemoryStream → Option (ℕ × InputMemoryStream)
  unfolding inner_bits
  read_within bits s = do
    byte ← get_elem? s.buffer s.head
    some (inner_bits s.bit_head bits byte, s)

  unfoldable pub read_bits : ℕ → InputMemoryStream → Option (ℕ × InputMemoryStream)
  unfolding read_over read_within
  read_bits bits s = do
    (v, t) ← if ltb 7 (s.bit_head + bits) then read_over bits s else read_within bits s
    some (v, record t { bit_head = (s.bit_head + bits) % 8 })

-- The templates of MemoryStream.h, for values of `width` bytes; a `size_t` has 8.
module _ (fresh : ℕ → ℕ) where
  unfoldable pub write_value : ℕ → ℕ → OutputMemoryStream → Option OutputMemoryStream
  write_value width v s = write fresh (le_bytes width v) s

  unfoldable pub write_string : List ℕ → OutputMemoryStream → Option OutputMemoryStream
  unfolding write_value
  write_string text s = write_value 8 (length text) s >>= λ t. write fresh text t

  unfoldable pub write_elements : ℕ → List ℕ → OutputMemoryStream → Option OutputMemoryStream
  unfolding write_value
  write_elements width [] s = some s
  write_elements width (v ∷ vs) s = write_value width v s >>= write_elements width vs

  unfoldable pub write_vector : ℕ → List ℕ → OutputMemoryStream → Option OutputMemoryStream
  unfolding write_value write_elements
  write_vector width vs s = write_value 8 (length vs) s >>= λ t. write_elements width vs t

unfoldable pub read_value : ℕ → InputMemoryStream → Option (ℕ × InputMemoryStream)
unfolding read
read_value width s = do (bytes, t) ← read width s; some (from_le bytes, t)

-- `behind` is what lies behind the block that the bytes are read into, which has no NUL at its end.
unfoldable pub read_string : List ℕ → InputMemoryStream → Option (List ℕ × InputMemoryStream)
unfolding read read_value
read_string behind s = do
  (n, t) ← read_value 8 s
  (bytes, u) ← read (u32 n) t
  some (c_string (bytes ++ behind), u)

unfoldable pub read_elements : ℕ → ℕ → InputMemoryStream → Option (List ℕ × InputMemoryStream)
unfolding read_value
read_elements width zero s = some ([], s)
read_elements width (suc n) s = do
  (v, t) ← read_value width s
  (vs, u) ← read_elements width n t
  some (v ∷ vs, u)

unfoldable pub read_vector : ℕ → InputMemoryStream → Option (List ℕ × InputMemoryStream)
unfolding read_value read_elements
read_vector width s = do (n, t) ← read_value 8 s; read_elements width n t
