-- ===== src/Mqtt/Messages.antt =====
-- What mqtt_chat_client.c publishes of the lines typed.
use io_t_lab.Common.{
  IsText, c_string, c_string-IsText, line-IsText, ℕ, zero, suc, ◌+◌, ◌<◌, ◌≤◌, ◌≡◌, ◌≢◌, ◌∙◌, refl,
  ap, ap₂, sym, arith, List, [], ◌∷◌, ◌++◌, some, ◌>>=◌, All, map, fgets, fgets-text, lines_of,
  length-lines_of, length, take, length-append, length-take, take-append_at,
}
use mathlib.Core.List.{append_assoc}
use io_t_lab.Mqtt.{Data, format_data, make_data, publish_messages}

-- snprintf writes one byte more than the block has.
abbrev pub IsOverrun : Data → Type 0
IsOverrun d = length d.written ≡ d.allocated + 1

length-format_data :
    (name payload : List ℕ) → length (format_data name payload) ≡ length payload + length name + 4
length-format_data name payload = omega (arith, length-append name (93 ∷ 58 ∷ 32 ∷ payload))

make_data-IsOverrun : (name payload : List ℕ) → IsOverrun (make_data name payload)
make_data-IsOverrun name payload =
    let size = length (c_string payload) + length (c_string name) + 3 in
    let text = format_data (c_string name) (c_string payload) in
    length-append (take size text) (0 ∷ [])
    ∙ ap (◌+ 1) (
        length-take size text
          (omega (arith, length-format_data (c_string name) (c_string payload))))

publish_messages-step :
    (fuel : ℕ) (name input : List ℕ) (later : List Data)
    → 0 < length input
    → publish_messages fuel name (fgets 20 input).1 ≡ some later
    → publish_messages (suc fuel) name input ≡ some (make_data name (fgets 20 input).0 ∷ later)
unfolding publish_messages
publish_messages-step fuel name [] later h e = absurd (omega arith)
publish_messages-step fuel name (b ∷ bs) later h e =
    ap (λ m. m >>= λ ds. some (make_data name (fgets 20 (b ∷ bs)).0 ∷ ds)) e

-- The text of a line, without its end, that is read whole.
abbrev pub IsTyped : List ℕ → Type 0
IsTyped text = All (λ b. b ≢ 10) text × (length text ≤ 18) × IsText text

-- "[name]: text"
abbrev pub chat_message : List ℕ → List ℕ → List ℕ
chat_message name text = 91 ∷ name ++ 93 ∷ 58 ∷ 32 ∷ text

make_data-message :
    (name text : List ℕ)
    → IsText name
    → IsText text
    → (make_data name (text ++ 10 ∷ [])).message ≡ chat_message name text
make_data-message name text named clean =
    rw (c_string-IsText name named, c_string-IsText (text ++ 10 ∷ []) (line-IsText text clean))
      (ap (take (length (text ++ 10 ∷ []) + length name + 3)) whole
        ∙ take-append_at _ (chat_message name text) (10 ∷ [])
            (omega (arith, length-append text (10 ∷ []), length-append name (93 ∷ 58 ∷ 32 ∷ text))))
  where
    whole : format_data name (text ++ 10 ∷ []) ≡ chat_message name text ++ 10 ∷ []
    whole = ap (λ r. 91 ∷ r) (sym (append_assoc name (93 ∷ 58 ∷ 32 ∷ text) (10 ∷ [])))

publish_messages-text :
    (fuel : ℕ) (name : List ℕ) (texts : List (List ℕ))
    → length (lines_of texts) ≤ fuel
    → IsText name
    → All IsTyped texts
    → (ds : List Data) × (publish_messages fuel name (lines_of texts) ≡ some ds)
      × (map (λ d. d.message) ds ≡ map (chat_message name) texts)
      × All IsOverrun ds
unfolding publish_messages
publish_messages-text fuel name [] h named a = ([], refl, refl, tt)
publish_messages-text zero name (t ∷ ts) h named a = absurd (omega (arith, length-lines_of t ts))
publish_messages-text (suc fuel) name (t ∷ ts) h named a =
    let input = lines_of (t ∷ ts) in
    let read : fgets 20 input ≡ (t ++ 10 ∷ [], lines_of ts) =
      ap (fgets 20) (append_assoc t (10 ∷ []) (lines_of ts))
      ∙ fgets-text 18 t (lines_of ts) a.0.0 a.0.1 in
    let ih = publish_messages-text fuel name ts (omega (arith, length-lines_of t ts)) named a.1 in
    (
      make_data name (fgets 20 input).0 ∷ ih.0,
      publish_messages-step fuel name input ih.0 (omega (arith, length-lines_of t ts))
          (ap (λ r. publish_messages fuel name r.1) read ∙ ih.1),
      ap₂ ◌∷◌ (ap (λ r. (make_data name r.0).message) read ∙ make_data-message name t named a.0.2)
          ih.2,
      (make_data-IsOverrun name (fgets 20 input).0, ih.3),
    )

-- If the name has no NUL in it, lines typed of at most 18 bytes each, with neither a newline nor a NUL
-- inside, are published in order, each behind the name and without its newline; each is written one
-- byte past the end of its block.
pub publish_messages-lines :
    (name : List ℕ) (texts : List (List ℕ))
    → IsText name
    → All IsTyped texts
    → (ds : List Data) × (publish_messages (length (lines_of texts)) name (lines_of texts)
        ≡ some ds)
      × (map (λ d. d.message) ds ≡ map (chat_message name) texts)
      × All IsOverrun ds
publish_messages-lines name texts named a =
    publish_messages-text (length (lines_of texts)) name texts (omega arith) named a
