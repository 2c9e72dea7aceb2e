-- ===== src/Mqtt/Protocol.antt =====
-- The order in which the MQTT clients of lab09 make their calls.
use io_t_lab.Common.{
  ℕ, zero, suc, ◌+◌, ◌≡◌, ◌∙◌, refl, ap, arith, List, [], ◌∷◌, ◌++◌, Bool, Bool-cases, inl, inr,
  Option, none, some, ◌>>=◌, true, false, if◌then◌else◌,
}
use io_t_lab.Mqtt.{
  Call, lib_init, lib_cleanup, callback_set, disconnect, destroy, new, connect, loop_start,
  loop_forever, subscribe, publish, Results, Data, basic_pub, multiple_pub, basic_sub, multiple_sub,
  sub_topic, chat_client, publisher, basic_rounds, multiple_rounds, publish_all, Topic,
  example_temperature, temperature, Callback, connack, suback, callback_calls, subscriber,
  have_subscription, on_connect_subscribe, basic_sub_on_connect, multiple_sub_on_connect,
}
use mathlib.Core.List.{append_assoc}

-- The library and its client: not set up, set up, with a client, connected, with the network loop
-- in a thread, and with the client destroyed.
pub data Phase : Type 0 where
  outside ready alive linked running gone : Phase

-- The calls that are in order in a phase, and the phase that follows.
abbrev pub next_phase : Call → Phase → Option Phase
next_phase lib_init outside = some ready
next_phase (new true) ready = some alive
next_phase (new false) ready = some ready
next_phase callback_set alive = some alive
next_phase (connect true) alive = some linked
next_phase (connect false) alive = some alive
next_phase (loop_start true) linked = some running
next_phase (loop_start false) linked = some linked
next_phase loop_forever linked = some linked
next_phase (subscribe ts) linked = some linked
next_phase disconnect linked = some linked
next_phase (publish t bytes) running = some running
next_phase destroy alive = some gone
next_phase destroy linked = some gone
next_phase lib_cleanup linked = some outside
next_phase _ _ = none

abbrev pub phases : List Call → Phase → Option Phase
phases [] p = some p
phases (c ∷ cs) p = next_phase c p >>= phases cs

-- Where a publisher and a subscriber should end.
abbrev pub publisher_end : Results → Phase
publisher_end r =
    if r.created
    then (if r.connected then (if r.started then running else gone) else gone)
    else ready

abbrev pub subscriber_end : Results → Phase
subscriber_end r = if r.created then (if r.connected then outside else gone) else ready

publisher-phases :
    (r : Results) (loop : List Call)
    → phases loop running ≡ some running
    → phases (publisher r loop) outside ≡ some (publisher_end r)
publisher-phases r loop h = ground arith

chat_client-phases :
    (r : Results) (messages : List Data)
    → phases (publish_all messages) running ≡ some running
    → phases (chat_client r messages) outside ≡ some (publisher_end r)
chat_client-phases r messages h = ground arith

publish_all-phases : (ds : List Data) → phases (publish_all ds) running ≡ some running
publish_all-phases [] = refl
publish_all-phases (d ∷ ds) = publish_all-phases ds

module _ (random : ℕ → ℕ) where
  basic_rounds-phases : (n k : ℕ) → phases (basic_rounds random n k) running ≡ some running
  basic_rounds-phases n zero = refl
  basic_rounds-phases n (suc k) = basic_rounds-phases (n + 1) k

  multiple_rounds-phases : (n k : ℕ) → phases (multiple_rounds random n k) running ≡ some running
  multiple_rounds-phases n zero = refl
  multiple_rounds-phases n (suc k) = multiple_rounds-phases (n + 3) k

-- What the callbacks call keeps the connection, and stops only at the end of the loop.
module _ (on_connack : Bool → ℕ → List Call)
    (h : (subscribed : Bool) (reason_code : ℕ) (rest : List Call)
      → phases (on_connack subscribed reason_code ++ rest) linked ≡ phases rest linked) where
  callback_calls-phases :
      (cs : List Callback) (rest : List Call)
      → phases (callback_calls on_connack cs ++ rest) linked ≡ phases rest linked
  callback_calls-phases [] rest = refl
  callback_calls-phases (connack subscribed reason_code ∷ cs) rest =
      ap (λ calls. phases calls linked)
        (append_assoc (on_connack subscribed reason_code) (callback_calls on_connack cs) rest)
      ∙ h subscribed reason_code (callback_calls on_connack cs ++ rest)
      ∙ callback_calls-phases cs rest
  callback_calls-phases (suback granted_qos ∷ cs) rest =
      elim (Bool-cases (have_subscription granted_qos)) [
        | inl some_granted ↦ rw some_granted (callback_calls-phases cs rest)
        | inr rejected ↦ rw rejected (callback_calls-phases cs rest)
      ]

  subscriber-phases :
      (r : Results) (cs : List Callback)
      → phases (subscriber on_connack r cs) outside ≡ some (subscriber_end r)
  subscriber-phases r cs =
      let ended = callback_calls-phases cs (lib_cleanup ∷ []) in ground (arith, ended)

on_connect_subscribe-phases :
    (topics : List Topic) (subscribed : Bool) (reason_code : ℕ) (rest : List Call)
    → phases (on_connect_subscribe topics subscribed reason_code ++ rest) linked
      ≡ phases rest linked
on_connect_subscribe-phases topics subscribed reason_code rest = ground arith

-- Whatever the library's calls return, however often the loops run and whichever callbacks run
-- inside loop_forever, `main` of all five programs, the thread of the chat client and the callbacks
-- of the two subscribers make their calls in order: on a client only once it was made and not after
-- it was destroyed, publishing only once the network loop was started, and subscribing only once
-- mosquitto_connect succeeded, though possibly after the broker refused or after a disconnect. The
-- callbacks that the library's own thread runs in the publishers and in `main` of the chat client
-- are not among the calls. A publisher runs on when all its first calls succeed, and has destroyed
-- its client when one of those behind `new` fails; a subscriber has destroyed its client when it
-- could not connect, and has left the library once loop_forever returns; where `new` fails, either
-- only set up the library.
pub clients-phases :
    (random : ℕ → ℕ) (r : Results) (k : ℕ) (messages : List Data) (callbacks : List Callback)
    → (phases (basic_pub random r k) outside ≡ some (publisher_end r))
      × (phases (multiple_pub random r k) outside ≡ some (publisher_end r))
      × (phases (chat_client r messages) outside ≡ some (publisher_end r))
      × (phases (basic_sub r callbacks) outside ≡ some (subscriber_end r))
      × (phases (multiple_sub r callbacks) outside ≡ some (subscriber_end r))
      × (phases (sub_topic r) outside ≡ some (subscriber_end r))
clients-phases random r k messages callbacks = (
  publisher-phases r (basic_rounds random 0 k) (basic_rounds-phases random 0 k),
  publisher-phases r (multiple_rounds random 0 k) (multiple_rounds-phases random 0 k),
  chat_client-phases r messages (publish_all-phases messages),
  subscriber-phases basic_sub_on_connect (on_connect_subscribe-phases (example_temperature ∷ [])) r
      callbacks,
  subscriber-phases multiple_sub_on_connect
      (on_connect_subscribe-phases (temperature 1 ∷ temperature 2 ∷ temperature 3 ∷ [])) r
      callbacks,
  ground arith,
)
