-- ===== src/Student.antt =====
-- lab06/student/Student.cpp, and the exchange of a student by StudentClnt.cpp and StudentServ.cpp.
-- A name is the list of its bytes. `none` is undefined behaviour.
pub mod Fields
pub mod BitFields
pub mod ReadBits
pub mod Exchange
mod Tests
use io_t_lab.Common.{
  ℕ, ◌+◌, ◌-◌, ◌^◌, length, List, [], ◌∷◌, ◌++◌, Option, none, some, ◌>>=◌, Bool, take, u8, u32,
}
use io_t_lab.Stream.{
  OutputMemoryStream, new_stream, write_value, write_string, write_vector, write_bits, get_length,
  InputMemoryStream, open_stream, read_value, read_string, read_vector, read_bits,
}

pub record Student : Type 0 where
  pub id : ℕ
  pub health : ℕ
  pub ability : ℕ
  pub name : List ℕ
  pub friends : List ℕ
  pub bit_data1 : ℕ
  pub bit_data2 : ℕ
  pub bit_data3 : ℕ

-- The constructor with arguments.
pub new_student : ℕ → List ℕ → Student
new_student id name = record {
  id = id;
  health = 100;
  ability = 0;
  name = name;
  friends = [];
  bit_data1 = 13;
  bit_data2 = 52;
  bit_data3 = 100;
}

unfoldable pub eat : Student → Student
eat st = record st { health = u32 (st.health + 10) }

unfoldable pub study : Student → Student
study st = record st { health = u32 (st.health + 2 ^ 32 - 5); ability = u32 (st.ability + 10) }

unfoldable pub sleep : Student → Student
sleep st = record st { health = u32 (st.health + 10) }

unfoldable pub play : Student → Student
play st = record st { health = u32 (st.health + 2 ^ 32 - 3); ability = u32 (st.ability + 3) }

unfoldable pub add_friend : ℕ → Student → Student
add_friend friend st = record st { friends = st.friends ++ friend ∷ [] }

unfoldable pub test_bits : Student → Student
test_bits st = record st {
  bit_data1 = u8 (st.bit_data1 + 2);
  bit_data2 = u8 (st.bit_data2 + 10);
  bit_data3 = u8 (st.bit_data3 + 2 ^ 8 - 5);
}

module _ (fresh : ℕ → ℕ) where
  unfoldable pub write_fields : Student → OutputMemoryStream → Option OutputMemoryStream
  write_fields st s = do
    s1 ← write_value fresh 4 st.id s
    s2 ← write_value fresh 4 st.health s1
    s3 ← write_value fresh 4 st.ability s2
    s4 ← write_string fresh st.name s3
    write_vector fresh 4 st.friends s4

  unfoldable pub write_bit_fields : Student → OutputMemoryStream → Option OutputMemoryStream
  write_bit_fields st s = do
    s1 ← write_bits fresh st.bit_data1 5 s
    s2 ← write_bits fresh st.bit_data2 6 s1
    write_bits fresh st.bit_data3 8 s2

  -- The bytes that `Send` gives to the socket.
  unfoldable pub send : Student → Option (List ℕ)
  unfolding write_fields write_bit_fields
  send st = do
    s ← write_fields st (new_stream fresh)
    t ← write_bit_fields st s
    some (take (get_length t) t.buffer)

unfoldable pub read_fields :
    List ℕ → Student → InputMemoryStream → Option (Student × InputMemoryStream)
read_fields behind st s = do
  (id, s1) ← read_value 4 s
  (health, s2) ← read_value 4 s1
  (ability, s3) ← read_value 4 s2
  (name, s4) ← read_string behind s3
  (friends, s5) ← read_vector 4 s4
  some (
    record st { id = id; health = health; ability = ability; name = name; friends = friends },
    s5,
  )

unfoldable pub read_bit_fields : Bool → Student → InputMemoryStream → Option Student
read_bit_fields char_signed st s = do
  (v1, s1) ← read_bits char_signed 5 s
  (v2, s2) ← read_bits char_signed 6 s1
  (v3, s3) ← read_bits char_signed 8 s2
  some (record st { bit_data1 = v1; bit_data2 = v2; bit_data3 = v3 })

-- What `TCPSocket::Receive` returns: as many bytes as `recv`, or minus an error number. The second
-- is a huge `size_t` for `Student::Receive`, which then reads a buffer that nothing was stored in.
pub data Received : Type 0 where
  bytes : List ℕ → Received
  error : ℕ → Received

-- kMaxPacketSize
abbrev pub max_packet_size : ℕ
max_packet_size = 1470

-- Lines 121-123, for the bytes in `temporaryBuffer`.
unfoldable pub read_received : Bool → List ℕ → List ℕ → Student → Option Student
unfolding read_fields read_bit_fields
read_received char_signed behind got st = do
  (st', s) ← read_fields behind st (open_stream got (length got))
  read_bit_fields char_signed st' s

-- Of the bytes that are there, `recv` takes as many as fit the buffer.
unfoldable pub receive : Bool → List ℕ → Received → Student → Option Student
unfolding read_received
receive char_signed behind (error e) st = none
receive char_signed behind (bytes []) st = some st
receive char_signed behind (bytes (b ∷ bs)) st =
    read_received char_signed behind (take max_packet_size (b ∷ bs)) st

-- Lines 41-46 of StudentServ.cpp.
unfoldable pub serve : Student → Student
unfolding eat study sleep add_friend test_bits
serve st = test_bits (add_friend 3333333 (add_friend 2222222 (study (eat (sleep st)))))

-- One run of the client: it sends its student, the server serves and sends it back, and the client
-- receives it. `blank` is the server's `Student stu`, whose bits are not set.
unfoldable pub exchange : (ℕ → ℕ) → Bool → List ℕ → Student → Student → Option Student
exchange fresh char_signed behind blank st = do
  sent ← send fresh st
  arrived ← receive char_signed behind (bytes sent) blank
  answer ← send fresh (serve arrived)
  receive char_signed behind (bytes answer) st
