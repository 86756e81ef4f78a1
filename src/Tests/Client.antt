-- ===== src/Tests/Client.antt =====
-- The client and the tests' broker.
use zbc_go.Common.{ℕ, ◌≡◌, refl, ap, arith, Option, none, some, [], ◌∷◌, ◌++◌, length}
use zbc_go.Wire.{Bytes, Error, ok}
use zbc_go.Message.{Message, subscribed_event}
use zbc_go.Writer.Laws.{full_message, message_layout, sbe_layout}
use zbc_go.Wire.{uint_bytes}
use zbc_go.Protocol.Laws.{frame_layout}
use zbc_go.Sbe.MessageHeader.Laws as HeaderLaws
use zbc_go.Sbe.ExecuteCommandResponse.Laws as ResponseLaws
use zbc_go.Request.Values.{Data, nil_data}
use zbc_go.Client.{Client, sending, idle, nil_channel, response_channel, subscription_channel}
use zbc_go.Client.{receive, request_id_of, sender, put, new_client}
use zbc_go.Client.Steps.{System, call, waiting, returned, initial, register, finish}
use zbc_go.Client.Steps.{set_calls, set_receiver, receiver_turn, responder, sent, respond}
use zbc_go.Client.Steps.{receiver_round, Steps, stop, ◌then◌}
use zbc_go.Client.Delivery.{receive-response, receive-shared_segment}
use zbc_go.Client.Subscribed.{subscribed-event}
use zbc_go.Client.{open_subscription, subscriber_key_of}
use zbc_go.Request.Values.{data_of, uint64_value, get_value}
use zbc_go.Client.Matching.Turns.{response-request_id}
use zbc_go.Tests.Broker.{unmarshal, frame, transport, request_id, header, response, response_bytes}
use zbc_go.Tests.Broker.{event_frame, event_transport, event_header, event, event_bytes}
use zbc_go.Tests.Broker.{response-Sent, event-Sent, response-written}

abbrev pub X : Type 0
X = Unit

-- The response, as the caller gets it; the tests also use it as the request.
abbrev pub answer : Message (Data X)
answer = full_message frame transport (some request_id) header response (some nil_data)

-- A client with a call for request 77 on channel 3, and a subscription with the key 5.
abbrev client : Client
client = record {
  connection = response_bytes ∷ [];
  transactions = put 77 (response_channel 77 3) (λ _. nil_channel);
  subscriptions = λ _. nil_channel;
}

abbrev pub event_client : Client
event_client = record {
  connection = event_bytes ∷ [];
  transactions = λ _. nil_channel;
  subscriptions = put 5 (subscription_channel 1 3) (λ _. nil_channel);
}

receive-response_example :
    receive unmarshal client
    ≡ (sending (response_channel 77 3) answer, record client { connection = [] })
unfolding put
receive-response_example =
    receive-response unmarshal frame transport header request_id response nil_data response_bytes
      client [] response-Sent refl

receive-shared_segment_example :
    receive unmarshal (record client {
      connection =
          (message_layout frame transport (some request_id) header response ++ event_bytes) ∷ [];
    })
    ≡ (sending (response_channel 77 3) answer, record client { connection = [] })
unfolding put message_layout frame_layout uint_bytes HeaderLaws.layout sbe_layout
    ResponseLaws.layout
receive-shared_segment_example =
    receive-shared_segment unmarshal frame transport header request_id response nil_data
      response_bytes event_bytes
      (record client {
        connection =
            (message_layout frame transport (some request_id) header response ++ event_bytes) ∷ [];
      })
      [] response-Sent (omega arith) refl

abbrev late : System X
late = record {
  client = client;
  receiver = idle;
  calls = call answer 77 (waiting (response_channel 77 3)) ∷ [];
  queues = λ _. [];
  serial = 4;
}

-- conn.Write that takes all it is given.
abbrev pub write_all : Bytes → ℕ × Option Error
write_all bs = (length bs, none)

abbrev pub opened : System X
opened = initial (response_bytes ∷ [])

abbrev registered : System X
registered = register answer 77 opened

abbrev pub waits : System X
waits = set_calls (call answer 77 (waiting (response_channel 77 0)) ∷ []) registered

abbrev received : System X
received = receiver_turn unmarshal waits

abbrev answered : System X
answered = set_receiver idle (finish 77 (call answer 77 (returned (ok answer)) ∷ []) received)

pub answer-sent : sender write_all answer ≡ ok tt
unfolding sender
answer-sent = rw (sender, response-written (some nil_data))

turn :
    receive unmarshal waits.client
    ≡ (sending (response_channel 77 0) answer, record waits.client { connection = [] })
unfolding initial register new_client put
turn =
    receive-response unmarshal frame transport header request_id response nil_data response_bytes
      waits.client [] response-Sent refl

answered-Steps : Steps unmarshal opened answered
unfolding initial register put request_id_of receiver_turn finish
answered-Steps =
    responder answer 77 refl
    then sent write_all answer 77 [] [] refl answer-sent
    then receiver_round refl
    then respond answer answer 77 77 0 [] [] refl (ap (λ x. x.0) turn)
    then stop

response-request_id_example : request_id_of (some answer) ≡ ok 77
unfolding finish
response-request_id_example =
    response-request_id unmarshal (response_bytes ∷ []) answered answer answer 77 [] []
      answered-Steps refl

-- A broker's answer to a subscription, and the client that waits for events.
abbrev opening : Message (Data X)
opening = record answer { payload = some (data_of (("subscriberKey", uint64_value 5) ∷ [])) }

abbrev unsubscribed : Client
unsubscribed = record event_client { subscriptions = λ _. nil_channel }

subscribed-event_example : receive unmarshal event_client ≡ (
  sending (subscription_channel 1 3) (
      full_message event_frame event_transport none event_header
        (subscribed_event event)
        (some nil_data)),
  record event_client { connection = [] },
)
unfolding open_subscription subscriber_key_of get_value
subscribed-event_example =
    subscribed-event unmarshal event_frame event_transport event_header opening
      (subscription_channel 1 3) unsubscribed event_client event nil_data event_bytes [] refl refl
      event-Sent refl
