-- ===== src/Student/Exchange.antt =====
-- The exchange of a student between StudentClnt.cpp and StudentServ.cpp of lab06/student.
use io_t_lab.Common.{
  ℕ, ◌+◌, ◌-◌, ◌^◌, ◌<◌, ◌≤◌, ◌≡◌, ◌∙◌, refl, ap, List, [], ◌∷◌, ◌++◌, some, arith, false, length,
  take, length-append, take-eq_of_le,
}
use mathlib.Core.List.{append_assoc}
use io_t_lab.Stream.{OutputMemoryStream, new_stream, get_length, open_stream}
use io_t_lab.Stream.Output.{new_stream-Holds}
use io_t_lab.Stream.Partial.{Holds-Partial}
use io_t_lab.Student.{
  Student, write_fields, write_bit_fields, send, bytes, max_packet_size, read_received, receive,
  exchange, serve,
}
use io_t_lab.Student.Fields.{
  field_bytes, length-field_bytes, write_fields-Holds, IsSendable, read_fields-At,
}
use io_t_lab.Student.BitFields.{FitsBits, bit_bytes, write_bit_fields-bytes}
use io_t_lab.Student.ReadBits.{read_bit_fields-unsigned}

-- The block has room for three more bytes behind the fields, and the first of them is 0 although
-- nothing was ever written there.
pub record HasRoom (fresh : ℕ → ℕ) (st : Student) : Type 0 where
  pub room :
      (s : OutputMemoryStream)
      → write_fields fresh st (new_stream fresh) ≡ some s
      → s.head + 3 ≤ s.capacity
  pub clean : fresh (length (field_bytes st)) ≡ 0

send-eq :
    (fresh : ℕ → ℕ) (st : Student) (s t : OutputMemoryStream)
    → write_fields fresh st (new_stream fresh) ≡ some s
    → write_bit_fields fresh st s ≡ some t
    → send fresh st ≡ some (take (get_length t) t.buffer)
unfolding send
send-eq fresh st s t a b = rw (a, b) refl

-- `send` gives the socket the wire format: the fields, and the bits as three bytes.
pub send-bytes :
    (fresh : ℕ → ℕ) (st : Student)
    → IsSendable st
    → FitsBits st
    → HasRoom fresh st
    → send fresh st ≡ some (field_bytes st ++ bit_bytes st)
unfolding new_stream
send-bytes fresh st ok fits free =
    let (s, wrote, held, start) =
      write_fields-Holds fresh st [] (new_stream fresh) (new_stream-Holds fresh)
        (omega (arith, ok.short)) in
    let room = free.room s wrote in
    let clean : fresh s.head ≡ 0 = ap fresh held.headed ∙ free.clean in
    let partly = Holds-Partial fresh (field_bytes st) s held start (omega arith) clean in
    let (t, done, sent) =
      write_bit_fields-bytes fresh st fits (field_bytes st) s partly start room
        (omega (arith, held.modest, held.headed, ok.short)) in
    send-eq fresh st s t wrote done ∙ ap some sent

length-bit_bytes : (st : Student) → length (bit_bytes st) ≡ 3
length-bit_bytes st = refl

module _ (tail : List ℕ) (st old : Student) (ok : IsSendable st) (fits : FitsBits st) where
  read_received-bytes :
      read_received false (0 ∷ tail) (field_bytes st ++ bit_bytes st) old ≡ some st
  unfolding read_received open_stream
  read_received-bytes =
      let wire = field_bytes st ++ bit_bytes st in
      let (t, ran, at) =
        read_fields-At tail (bit_bytes st) st old (open_stream wire (length wire)) ok
          (record { layout = refl; headed = refl; aligned = refl }) in
      rw ran (
        read_bit_fields-unsigned (field_bytes st) [] st
          (record old {
            id = st.id;
            health = st.health;
            ability = st.ability;
            name = st.name;
            friends = st.friends;
          })
          t at fits (omega (arith, ok.short)))

  -- What was sent is received, if one `recv` brings all of it.
  pub receive-bytes :
      length (field_bytes st) + 3 ≤ max_packet_size
      → receive false (0 ∷ tail) (bytes (field_bytes st ++ bit_bytes st)) old ≡ some st
  unfolding receive
  receive-bytes small =
      let wire = field_bytes st ++ bit_bytes st in
      let fitting : length wire ≤ max_packet_size =
        omega (arith, length-append (field_bytes st) (bit_bytes st), length-bit_bytes st) in
      ap (λ got. read_received false (0 ∷ tail) got old)
        (take-eq_of_le max_packet_size wire fitting)
      ∙ read_received-bytes

-- What a student is like after one run, by the fields.
abbrev pub served : Student → Student
served st = record st {
  health = st.health + 15;
  ability = st.ability + 10;
  friends = st.friends ++ 2222222 ∷ 3333333 ∷ [];
  bit_data1 = st.bit_data1 + 2;
  bit_data2 = st.bit_data2 + 10;
  bit_data3 = st.bit_data3 - 5;
}

-- The numbers are far enough from the ends of their fields.
pub record IsServable (st : Student) : Type 0 where
  pub health : st.health + 20 < 2 ^ 32
  pub ability : st.ability + 10 < 2 ^ 32
  pub bit_data1 : st.bit_data1 + 2 < 2 ^ 5
  pub bit_data2 : st.bit_data2 + 10 < 2 ^ 6
  pub bit_data3 : 5 ≤ st.bit_data3
  pub bit_data3_byte : st.bit_data3 < 2 ^ 8

serve-served : (st : Student) → IsServable st → serve st ≡ served st
unfolding serve
serve-served st h = ground (arith, append_assoc st.friends (2222222 ∷ []) (3333333 ∷ []))

module _ (fresh : ℕ → ℕ) (tail : List ℕ) (st blank : Student) (ok : IsSendable st)
    (servable : IsServable st) (ok' : IsSendable (served st)) (free : HasRoom fresh st)
    (free' : HasRoom fresh (served st))
    (small : length (field_bytes (served st)) + 3 ≤ max_packet_size) where
  now : FitsBits st
  now = record {
    bit_data1 = omega (arith, servable.bit_data1);
    bit_data2 = omega (arith, servable.bit_data2);
    bit_data3 = servable.bit_data3_byte;
  }

  later : FitsBits (served st)
  later = record {
    bit_data1 = servable.bit_data1;
    bit_data2 = servable.bit_data2;
    bit_data3 = omega (arith, servable.bit_data3_byte);
  }

  smaller : length (field_bytes st) + 3 ≤ max_packet_size
  smaller = omega (
    arith,
    length-field_bytes st,
    length-field_bytes (served st),
    length-append st.friends (2222222 ∷ 3333333 ∷ []),
  )

  -- One exchange with an unsigned `char`, on these conditions: the name has no NUL, the numbers are
  -- of the width of their fields and far enough from their ends that serving overflows none; the
  -- answer has at most 1470 bytes, and one `recv` brings each message; the block of each stream has
  -- room for three bytes behind the fields, and the first of them, which nothing was written to, is
  -- 0, as is the byte behind the block that a name is read into. Then the client ends with its own
  -- student as the server has changed it, whatever the server's object held before.
  pub exchange-served : exchange fresh false (0 ∷ tail) blank st ≡ some (served st)
  unfolding exchange
  exchange-served =
      rw
        (
          send-bytes fresh st ok now free,
          receive-bytes tail st blank ok now smaller,
          serve-served st servable,
          send-bytes fresh (served st) ok' later free',
        )
        (receive-bytes tail (served st) st ok' later small)
