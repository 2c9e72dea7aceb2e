-- ===== src/Mqtt/Tests.antt =====
-- The MQTT clients of lab09 at concrete inputs.
use io_t_lab.Common.{lines_of, ℕ, ◌+◌, ◌≡◌, refl, List, [], ◌∷◌, some, true, false, arith, All, map}
use io_t_lab.Mqtt.{
  Results, Data, disconnect, subscribe, example_temperature, decimal, basic_pub, multiple_pub,
  basic_sub, multiple_sub, sub_topic, chat_client, make_data, publish_messages, on_subscribe,
  basic_sub_on_connect, Callback, connack, suback,
}
use io_t_lab.Mqtt.Protocol.{phases, outside, publisher_end, subscriber_end, clients-phases}
use io_t_lab.Mqtt.Messages.{IsOverrun, chat_message, publish_messages-lines}

abbrev kim : List ℕ
kim = 107 ∷ 105 ∷ 109 ∷ []

abbrev hi : List ℕ
hi = 104 ∷ 105 ∷ []

abbrev unsubscribed : Results
unsubscribed = record { created = true; connected = true; started = true; subscribed = false }

abbrev random : ℕ → ℕ
random n = 105 + n

-- A refused connection, and then a subscription that the broker rejects.
abbrev refused : List Callback
refused = connack true 5 ∷ suback (128 ∷ 128 ∷ []) ∷ []

clients-phases_example :
    (phases (basic_pub random unsubscribed 2) outside ≡ some (publisher_end unsubscribed))
    × (phases (multiple_pub random unsubscribed 2) outside ≡ some (publisher_end unsubscribed))
    × (phases (chat_client unsubscribed (make_data kim hi ∷ [])) outside
        ≡ some (publisher_end unsubscribed))
    × (phases (basic_sub unsubscribed refused) outside ≡ some (subscriber_end unsubscribed))
    × (phases (multiple_sub unsubscribed refused) outside ≡ some (subscriber_end unsubscribed))
    × (phases (sub_topic unsubscribed) outside ≡ some (subscriber_end unsubscribed))
clients-phases_example = clients-phases random unsubscribed 2 (make_data kim hi ∷ []) refused

publish_messages-lines_example :
    (ds : List Data) × (publish_messages 6 kim (lines_of (hi ∷ hi ∷ [])) ≡ some ds)
    × (map (λ d. d.message) ds ≡ chat_message kim hi ∷ chat_message kim hi ∷ [])
    × All IsOverrun ds
publish_messages-lines_example =
    publish_messages-lines kim (hi ∷ hi ∷ []) (omega arith) (omega arith)

decimal_two_digits : decimal 42 ≡ 52 ∷ 50 ∷ []
decimal_two_digits = refl

-- After a refused connection the subscriber disconnects, and subscribes all the same.
basic_sub_refused :
    basic_sub_on_connect true 5 ≡ disconnect ∷ subscribe (example_temperature ∷ []) ∷ []
basic_sub_refused = refl

on_subscribe_rejected : on_subscribe (128 ∷ 128 ∷ []) ≡ disconnect ∷ []
on_subscribe_rejected = refl

on_subscribe_one_granted : on_subscribe (128 ∷ 1 ∷ []) ≡ []
on_subscribe_one_granted = refl
