-- ===== src/Tests/Subscription.antt =====
-- A client that opens a subscription: from its first call to its table.
use zbc_go.Common.{
  pos, All, ◌++◌, ℕ, ◌+◌, ◌≤◌, ◌≡◌, refl, ap, arith, Option, none, some, [], ◌∷◌, length,
}
use zbc_go.Wire.{Bytes, Error, ok}
use zbc_go.Message.{Message}
use zbc_go.Writer.Laws.{full_message}
use zbc_go.Request.Values.{Data, data_of, uint64_value, get_value}
use zbc_go.Client.{sending, idle, response_channel, subscription_channel, put, new_client}
use zbc_go.Client.{receive, request_id_of, sender, open_subscription, subscriber_key_of}
use zbc_go.Client.Steps.{System, call, waiting, returned, initial, register, finish}
use zbc_go.Client.Steps.{set_calls, set_receiver, receiver_turn, responder, sent, respond}
use zbc_go.Client.Steps.{receiver_round, subscribed, Steps, stop, ◌then◌}
use zbc_go.Client.Delivery.{Sent, receive-response, receive-event}
use zbc_go.Client.Promise.{HasKey, nothing_asked, asks, returns, opens, pushes}
use zbc_go.Client.Matching.Refinement.{KeptTo, trace, action_of}
use zbc_go.Client.Matching.Simulation.{client-Kept}
use zbc_go.Client.Subscribed.{subscription_of}
use zbc_go.Client.{subscribe, make_channel}
use zbc_go.Request.{TaskSubscription}
use zbc_go.Client.Matching.Keyed.{queue-subscriber_key, subscription-bounded}
use zbc_go.Client.Steps.{event_queued, set_queue}
use zbc_go.Message.{subscribed_event}
use zbc_go.Tests.Broker.{
  event_frame, event_transport, event_header, event, event_bytes, event-Sound, event-Announced,
  event-written,
}
use zbc_go.Tests.Broker.{frame, transport, request_id, header, response, response_bytes}
use zbc_go.Tests.Broker.{response-Sound, response-Announced, response-written}

abbrev X : Type 0
X = Unit

abbrev key : Data X
key = data_of (("subscriberKey", uint64_value 5) ∷ [])

-- A MessagePack library that reads each document as a subscriber key.
abbrev unmarshal : Bytes → Option (Data X)
unmarshal bs = some key

abbrev answer : Message (Data X)
answer = full_message frame transport (some request_id) header response (some key)

key-Sent : Sent unmarshal frame transport header (some request_id) response key response_bytes
key-Sent = record {
  sound = response-Sound;
  fits = omega arith;
  announced = response-Announced;
  known = refl;
  written = response-written (some key);
  small = omega arith;
}

abbrev opened : System X
opened = initial (response_bytes ∷ event_bytes ∷ [])

abbrev waits : System X
waits =
    set_calls (call answer 77 (waiting (response_channel 77 0)) ∷ []) (register answer 77 opened)

abbrev answered : System X
answered =
    set_receiver idle
      (finish 77 (call answer 77 (returned (ok answer)) ∷ []) (receiver_turn unmarshal waits))

abbrev consuming : System X
consuming = record answered {
  client = record answered.client {
    subscriptions = put 5 (subscription_channel answered.serial 3) answered.client.subscriptions;
  };
  serial = answered.serial + 1;
}

abbrev write_all : Bytes → ℕ × Option Error
write_all bs = (length bs, none)

answer-sent : sender write_all answer ≡ ok tt
unfolding sender
answer-sent = rw (sender, response-written (some key))

turn : receive unmarshal waits.client ≡ (
  sending (response_channel 77 0) answer,
  record waits.client { connection = event_bytes ∷ [] },
)
unfolding initial register new_client put
turn =
    receive-response unmarshal frame transport header request_id response key response_bytes
      waits.client (event_bytes ∷ []) key-Sent refl

abbrev task_subscription : TaskSubscription
task_subscription = record {
  subscriber_key = 0;
  topic_name = "default-topic";
  partition_id = pos 0;
  task_type = "foo";
  lock_duration = 300000;
  lock_owner = "zbc";
  credits = pos 3;
}

from_answered : (u : System X) → Steps unmarshal answered u → Steps unmarshal opened u
unfolding initial register put request_id_of receiver_turn finish
from_answered u steps =
    responder answer 77 refl
    then sent write_all answer 77 [] [] refl answer-sent
    then receiver_round refl
    then respond answer answer 77 77 0 [] [] refl (ap (λ x. x.0) turn)
    then steps

abbrev event_answer : Message (Data X)
event_answer =
    full_message event_frame event_transport none event_header (subscribed_event event) (some key)

event-key-Sent :
    Sent unmarshal event_frame event_transport event_header none
      (subscribed_event event)
      key
      event_bytes
event-key-Sent = record {
  sound = event-Sound;
  fits = omega arith;
  announced = event-Announced;
  known = refl;
  written = event-written (some key);
  small = omega arith;
}

abbrev pushing : System X
pushing = receiver_turn unmarshal consuming

-- The event of the broker is in the channel.
abbrev pushed : System X
pushed = set_receiver idle (set_queue 1 (pushing.queues 1 ++ event_answer ∷ []) pushing)

event-turn :
    receive unmarshal consuming.client
    ≡ (sending (subscription_channel 1 3) event_answer, record consuming.client { connection = [] })
unfolding receiver_turn initial register new_client put finish
event-turn =
    receive-event unmarshal event_frame event_transport event_header event key event_bytes
      consuming.client [] event-key-Sent (ap (λ x. x.1.connection) turn)

from_consuming : Steps unmarshal consuming pushed
unfolding receiver_turn initial register finish
from_consuming =
    receiver_round refl
    then event_queued event_answer 1 3 (ap (λ x. x.0) event-turn) (omega arith)
    then stop

consuming-stored :
    subscribe answered.serial task_subscription answer answered.client ≡ ok consuming.client
unfolding subscribe make_channel open_subscription subscriber_key_of get_value put
consuming-stored = refl

pushed-Steps : Steps unmarshal opened pushed
unfolding receiver_turn initial register finish
pushed-Steps = from_answered pushed (
    subscribed task_subscription answer answer 77 consuming.client [] [] refl consuming-stored
    then from_consuming)

-- What a user sees of it: a call and its answer, a subscription, and an event for it.
client-Kept_example :
    KeptTo unmarshal
      (asks 77 answer
        ∷ returns 77 answer (ok answer)
        ∷ opens 1 (record { key = 5; credits = 3 })
        ∷ pushes 1 event_answer
        ∷ [])
      nothing_asked
      pushed
unfolding trace action_of pushed-Steps from_answered from_consuming subscription_of
    subscriber_key_of get_value make_channel receiver_turn initial register finish
client-Kept_example = client-Kept unmarshal (response_bytes ∷ event_bytes ∷ []) pushed pushed-Steps

subscription-bounded_example :
    (consuming.client.subscriptions 5 ≡ subscription_channel 1 3)
    × (length (pushed.queues 1) ≤ 3)
    × All (HasKey 5) (pushed.queues 1)
unfolding receiver_turn initial register finish subscriber_key_of get_value
subscription-bounded_example =
    subscription-bounded unmarshal (response_bytes ∷ event_bytes ∷ []) answered pushed
      task_subscription answer consuming.client 3 5 (from_answered answered stop) refl refl
      consuming-stored from_consuming

queue-subscriber_key_example : All (HasKey 5) (pushed.queues 1)
unfolding receiver_turn initial register new_client put finish
queue-subscriber_key_example =
    queue-subscriber_key unmarshal (response_bytes ∷ event_bytes ∷ []) pushed 5 1 3 pushed-Steps
      (ap (λ x. x.1.subscriptions 5) event-turn)
