-- ===== src/Student/Tests.antt =====
-- The students of lab06/student at concrete values.
use io_t_lab.Common.{ℕ, ◌≡◌, ◌≤◌, ◌+◌, refl, Ensures-elim, [], ◌∷◌, ◌++◌, some, arith, true, false}
use io_t_lab.Stream.{
  new_stream, OutputMemoryStream, open_stream, write_value, write, write_string, write_vector,
  write_bits, get_length,
}
use io_t_lab.Student.{Student, new_student, send, exchange, write_fields, read_bit_fields}
use io_t_lab.Student.Fields.{field_bytes, IsSendable}
use io_t_lab.Student.BitFields.{FitsBits}
use io_t_lab.Student.ReadBits.{read_bit_fields-signed}
use io_t_lab.Student.Exchange.{HasRoom, IsServable, served, exchange-served}

abbrev zeros : ℕ → ℕ
zeros i = 0

abbrev seoeun : Student
seoeun = record {
  id = 1111111;
  health = 100;
  ability = 0;
  name = 83 ∷ 101 ∷ 111 ∷ 101 ∷ 117 ∷ 110 ∷ [];
  friends = [];
  bit_data1 = 13;
  bit_data2 = 52;
  bit_data3 = 100;
}

seoeun_new : new_student 1111111 (83 ∷ 101 ∷ 111 ∷ 101 ∷ 117 ∷ 110 ∷ []) ≡ seoeun
unfolding new_student
seoeun_new = refl

seoeun_sent : send zeros seoeun ≡ some (field_bytes seoeun ++ 141 ∷ 38 ∷ 3 ∷ [])
unfolding send write_value write new_stream write_string write_vector write_bits get_length
seoeun_sent = refl

abbrev RoomFor3 : OutputMemoryStream → Type 0
RoomFor3 s = s.head + 3 ≤ s.capacity

seoeun-HasRoom : HasRoom zeros seoeun
unfolding write_fields write_value write new_stream write_string write_vector
seoeun-HasRoom = record {
  room =
      λ s e. Ensures-elim RoomFor3 (write_fields zeros seoeun (new_stream zeros)) s e (omega arith);
  clean = refl;
}

served-HasRoom : HasRoom zeros (served seoeun)
unfolding write_fields write_value write new_stream write_string write_vector
served-HasRoom = record {
  room = λ s e.
      Ensures-elim RoomFor3 (write_fields zeros (served seoeun) (new_stream zeros)) s e
        (omega arith);
  clean = refl;
}

seoeun-IsSendable : IsSendable seoeun
seoeun-IsSendable = record {
  id = omega arith;
  health = omega arith;
  ability = omega arith;
  name = omega arith;
  friends = tt;
  short = omega arith;
}

served-IsSendable : IsSendable (served seoeun)
served-IsSendable = record {
  id = omega arith;
  health = omega arith;
  ability = omega arith;
  name = omega arith;
  friends = omega arith;
  short = omega arith;
}

seoeun-FitsBits : FitsBits seoeun
seoeun-FitsBits = record {
  bit_data1 = omega arith;
  bit_data2 = omega arith;
  bit_data3 = omega arith;
}

seoeun-IsServable : IsServable seoeun
seoeun-IsServable = record {
  health = omega arith;
  ability = omega arith;
  bit_data1 = omega arith;
  bit_data2 = omega arith;
  bit_data3 = omega arith;
  bit_data3_byte = omega arith;
}

exchange-served_example :
    exchange zeros false (0 ∷ []) (served seoeun) seoeun ≡ some (served seoeun)
exchange-served_example =
    exchange-served zeros [] seoeun (served seoeun) seoeun-IsSendable seoeun-IsServable
      served-IsSendable seoeun-HasRoom served-HasRoom (omega arith)

read_bit_fields-signed_example :
    (t : Student) × (read_bit_fields true seoeun (open_stream (141 ∷ 38 ∷ 3 ∷ []) 3) ≡ some t)
    × (248 ≤ t.bit_data2)
unfolding open_stream
read_bit_fields-signed_example =
    read_bit_fields-signed [] [] seoeun seoeun (open_stream (141 ∷ 38 ∷ 3 ∷ []) 3)
      (record { layout = refl; headed = refl; aligned = refl }) seoeun-FitsBits (omega arith) refl
