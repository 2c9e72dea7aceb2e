-- ===== src/Capture/Tests.antt =====
-- lab03/src/capture.c on packets of lab04/src/tcp_client_raw.c.
use io_t_lab.Common.{ℕ, ◌+◌, ◌≡◌, refl, List, [], ◌∷◌, ◌++◌, some, none, arith, replicate}
use io_t_lab.Raw.{syn, data_type, SockAddr}
use io_t_lab.Capture.{print_flags, capture, urg, fin}
use io_t_lab.Capture.Frames.{Mac, Sent, frame_of, reports_of, capture-packets}

abbrev here : SockAddr
here = record { addr = 0x0200a8c0; port = 0x3930 }

abbrev peer : SockAddr
peer = record { addr = 0x0300a8c0; port = 0x5000 }

abbrev rand : ℕ → ℕ
rand n = 7000 + n

abbrev left : Mac
left = record { b0 = 2; b1 = 0; b2 = 0; b3 = 0; b4 = 0; b5 = 1 }

abbrev right : Mac
right = record { b0 = 2; b1 = 0; b2 = 0; b3 = 0; b4 = 0; b5 = 2 }

abbrev first : Sent
first = record {
  kind = syn;
  message = [];
  state = record { seq_num = 0x12345678; ack_num = 0; drawn = 1; sent = [] };
}

abbrev second : Sent
second = record {
  kind = data_type;
  message = 104 ∷ 105 ∷ 10 ∷ [];
  state = record { seq_num = 0x12345679; ack_num = 501; drawn = 2; sent = [] };
}

abbrev blank : List ℕ
blank = replicate 60 0

capture-packets_example :
    capture
      (some (frame_of rand here peer left right first)
        ∷ some (frame_of rand here peer left right second)
        ∷ [])
      blank
      0
    ≡ reports_of rand here peer left right 0 (first ∷ second ∷ [])
capture-packets_example =
    capture-packets rand here peer left right (omega arith) (omega arith) (omega arith)
      (omega arith) (first ∷ second ∷ []) blank 0 (omega arith)

print_flags_urg_fin : print_flags 33 ≡ urg ∷ fin ∷ []
print_flags_urg_fin = refl

-- An ARP frame is not looked into, and -1 ends the capture.
capture_arp : capture (some (replicate 12 0 ++ 8 ∷ 6 ∷ []) ∷ none ∷ some [] ∷ []) blank 0 ≡ (
    record {
      num = 0;
      source_mac = replicate 6 0;
      dest_mac = replicate 6 0;
      eth_protocol = 0x608;
      ip = none;
    }
    ∷ [])
capture_arp = refl
