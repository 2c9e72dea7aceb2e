-- ===== src/Mqtt.antt =====
-- The MQTT clients of lab09. The mosquitto library is not here: a client is the list of its calls,
-- and what a call returns is a parameter, true for MOSQ_ERR_SUCCESS or a client that was made. Calls
-- that only print are left out.
pub mod Protocol
pub mod Messages
mod Tests
use io_t_lab.Common.{
  ℕ, zero, suc, ◌+◌, ◌-◌, ◌/◌, ◌%◌, List, [], ◌∷◌, ◌++◌, Option, none, some, ◌>>=◌, Bool, true,
  false, not, ◌==◌, ltb, signed_lt, if◌then◌else◌, length, take, fgets, c_string,
}

pub data Topic : Type 0 where
  example_temperature chat : Topic
  temperature : ℕ → Topic

pub data Call : Type 0 where
  lib_init lib_cleanup callback_set loop_forever disconnect destroy : Call
  new connect loop_start : Bool → Call
  subscribe : List Topic → Call
  publish : Topic → List ℕ → Call

pub record Results : Type 0 where
  pub created : Bool
  pub connected : Bool
  pub started : Bool
  pub subscribed : Bool

-- `main` of basic_pub.c and multiple_pub.c up to its loop, with the calls of the loop.
abbrev publisher : Results → List Call → List Call
publisher r loop =
    lib_init
    ∷ new r.created
    ∷ (if r.created
        then callback_set
          ∷ callback_set
          ∷ connect r.connected
          ∷ (if r.connected
              then loop_start r.started ∷ (if r.started then loop else destroy ∷ [])
              else destroy ∷ [])
        else [])

-- `snprintf` of a number below 100 with "%d".
abbrev pub decimal : ℕ → List ℕ
decimal n = if ltb n 10 then (48 + n) ∷ [] else (48 + n / 10) ∷ (48 + n % 10) ∷ []

-- What the n-th `random` returns.
module _ (random : ℕ → ℕ) where
  abbrev pub get_temperature : ℕ → ℕ
  get_temperature n = random n % 100

  -- publish_sensor_data of basic_pub.c and of multiple_pub.c, after n numbers were drawn.
  abbrev pub publish_temperature : ℕ → List Call
  publish_temperature n = publish example_temperature (decimal (get_temperature n)) ∷ []

  abbrev pub publish_temperatures : ℕ → List Call
  publish_temperatures n =
      publish (temperature 1) (decimal (get_temperature n))
      ∷ publish (temperature 2) (decimal (get_temperature (n + 1)))
      ∷ publish (temperature 3) (decimal (get_temperature (n + 2)))
      ∷ []

  -- The first rounds of the endless loops.
  abbrev basic_rounds : ℕ → ℕ → List Call
  basic_rounds n zero = []
  basic_rounds n (suc k) = publish_temperature n ++ basic_rounds (n + 1) k

  abbrev multiple_rounds : ℕ → ℕ → List Call
  multiple_rounds n zero = []
  multiple_rounds n (suc k) = publish_temperatures n ++ multiple_rounds (n + 3) k

  abbrev pub basic_pub : Results → ℕ → List Call
  basic_pub r k = publisher r (basic_rounds 0 k)

  abbrev pub multiple_pub : Results → ℕ → List Call
  multiple_pub r k = publisher r (multiple_rounds 0 k)

-- on_connect of the publishers and of the chat client.
abbrev pub on_connect : ℕ → List Call
on_connect reason_code = if reason_code == 0 then [] else disconnect ∷ []

-- on_connect of basic_sub.c and of multiple_sub.c.
abbrev pub on_connect_subscribe : List Topic → Bool → ℕ → List Call
on_connect_subscribe topics subscribed reason_code =
    on_connect reason_code ++ subscribe topics ∷ (if subscribed then [] else disconnect ∷ [])

abbrev pub basic_sub_on_connect : Bool → ℕ → List Call
basic_sub_on_connect = on_connect_subscribe (example_temperature ∷ [])

abbrev pub multiple_sub_on_connect : Bool → ℕ → List Call
multiple_sub_on_connect = on_connect_subscribe (temperature 1 ∷ temperature 2 ∷ temperature 3 ∷ [])

abbrev pub have_subscription : List ℕ → Bool
have_subscription [] = false
have_subscription (qos ∷ granted) =
    let rest = have_subscription granted in if signed_lt 2 qos then rest else true

abbrev pub on_subscribe : List ℕ → List Call
on_subscribe granted_qos = if have_subscription granted_qos then [] else disconnect ∷ []

-- The calls of a subscriber's callbacks that are not only prints: on_connect, with what `subscribe`
-- returns in it and the reason code, and on_subscribe, with the qualities of service granted.
pub data Callback : Type 0 where
  connack : Bool → ℕ → Callback
  suback : List ℕ → Callback

module _ (on_connack : Bool → ℕ → List Call) where
  abbrev calls_of : Callback → List Call
  calls_of (connack subscribed reason_code) = on_connack subscribed reason_code
  calls_of (suback granted_qos) = on_subscribe granted_qos

  abbrev pub callback_calls : List Callback → List Call
  callback_calls [] = []
  callback_calls (c ∷ cs) = calls_of c ++ callback_calls cs

  -- `main` of basic_sub.c, and of multiple_sub.c, with the callbacks that run inside loop_forever.
  abbrev subscriber : Results → List Callback → List Call
  subscriber r callbacks =
      lib_init
      ∷ new r.created
      ∷ (if r.created
          then callback_set
            ∷ callback_set
            ∷ callback_set
            ∷ connect r.connected
            ∷ (if r.connected
                then loop_forever ∷ callback_calls callbacks ++ lib_cleanup ∷ []
                else destroy ∷ [])
          else [])

abbrev pub basic_sub : Results → List Callback → List Call
basic_sub = subscriber basic_sub_on_connect

abbrev pub multiple_sub : Results → List Callback → List Call
multiple_sub = subscriber multiple_sub_on_connect

-- mqtt_chat_client.c: the thread that prints what arrives.
abbrev pub sub_topic : Results → List Call
sub_topic r =
    lib_init
    ∷ new r.created
    ∷ (if r.created
        then callback_set
          ∷ connect r.connected
          ∷ (if r.connected
              then subscribe (chat ∷ []) ∷ (if r.subscribed then [] else disconnect ∷ [])
                ++ loop_forever ∷ lib_cleanup ∷ []
              else destroy ∷ [])
        else [])

-- What publish_message does with its block: its size, the bytes that snprintf writes, and those
-- before the NUL, which are published.
pub record Data : Type 0 where
  pub allocated : ℕ
  pub written : List ℕ
  pub message : List ℕ

-- "[%s]: %s"
abbrev pub format_data : List ℕ → List ℕ → List ℕ
format_data name payload = 91 ∷ name ++ 93 ∷ 58 ∷ 32 ∷ payload

-- Lines 32-35, for a name and a payload that stand before their NULs in longer arrays.
abbrev pub make_data : List ℕ → List ℕ → Data
make_data name payload =
    let size = length (c_string payload) + length (c_string name) + 3 in
    let text = take size (format_data (c_string name) (c_string payload)) in
    record { allocated = size; written = text ++ 0 ∷ []; message = text }

-- The loop of lines 115-117 up to the end of the input, with fuel.
unfoldable pub publish_messages : ℕ → List ℕ → List ℕ → Option (List Data)
publish_messages fuel name [] = some []
publish_messages zero name (b ∷ bs) = none
publish_messages (suc fuel) name (b ∷ bs) =
    let line = fgets 20 (b ∷ bs) in
    publish_messages fuel name line.1 >>= λ later. some (make_data name line.0 ∷ later)

abbrev pub publish_all : List Data → List Call
publish_all [] = []
publish_all (d ∷ ds) = publish chat d.message ∷ publish_all ds

-- `main`, with the messages of the loop.
abbrev pub chat_client : Results → List Data → List Call
chat_client r messages =
    lib_init
    ∷ new r.created
    ∷ (if r.created
        then callback_set
          ∷ connect r.connected
          ∷ (if r.connected
              then loop_start r.started ∷ (if r.started then publish_all messages else destroy ∷ [])
              else destroy ∷ [])
        else [])
