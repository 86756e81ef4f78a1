-- ===== src/Cmd/Events.antt =====
-- The command open: what it subscribes to, and what it prints.
use mathlib.Core.List.{map}
use zbc_go.Common.{
  ℕ, ◌≡◌, ◌<◌, ◌^◌, refl, List, [], ◌∷◌, ◌++◌, append-nil, none, some, length, int32, pos,
}
use zbc_go.Wire.{Bytes, ok, panic, nil_pointer}
use zbc_go.Sbe.ControlMessageRequest as ControlRequest
use zbc_go.Message.{Message, control_request, set_data}
use zbc_go.Request.Values.{Data}
use zbc_go.Request.{TaskSubscription, subscription_command}
use zbc_go.Request.Laws.{request_message, new_task_subscription_message-eq}
use zbc_go.Client.{make_channel, request_id_of, subscriber_key_of}
use zbc_go.Client.Calls.{call_responder, task_consumer}
use zbc_go.Cmd.Printing.{Output, line, event_line, try, is_fatal, after}
use zbc_go.Cmd.{Config, contact_string, Environment, print_events, open_subscription}
use zbc_go.Cmd.Actions.{Context, connect, open_action}

module _ {X : Type 0} where
  abbrev pub with_data : List (Message (Data X) × Data X) → List (Message (Data X))
  with_data = map (λ event. set_data (some event.1) event.0)

  print_events-append :
      (events : List (Message (Data X) × Data X)) (rest : List (Message (Data X)))
      → print_events (with_data events ++ rest)
        ≡ after (map (λ event. event_line event.1) events) (print_events rest)
  unfolding print_events
  print_events-append [] rest = refl
  print_events-append (event ∷ events) rest = rw (print_events-append events rest)

  abbrev pub event_lines : List (Message (Data X) × Data X) → List (Output X)
  event_lines events =
      line "Connected to Zeebe."
      ∷ line "Waiting for events ...."
      ∷ map (λ event. event_line event.1) events

module _ {X : Type 0} (env : Environment X) (conf : Config) where
  -- The subscription that the flags ask for.
  abbrev pub subscription_of : Context → TaskSubscription
  subscription_of c = record {
    subscriber_key = 0;
    topic_name = c.string_flag "topic";
    partition_id = int32 (c.int64_flag "partition-id");
    task_type = c.string_flag "task-type";
    lock_duration = 300000;
    lock_owner = c.string_flag "lock-owner";
    credits = pos 32;
  }

  task_consumer-eq :
      (ts : TaskSubscription) (b : Bytes) (response : Message (Data X)) (k n : ℕ)
      → ts.credits ≡ pos n
      → env.marshal (subscription_command ts) ≡ some b
      → length b < 2 ^ 16
      → env.drawn < 2 ^ 64
      → ((size : ℕ)
          → env.answer (
              request_message env.drawn ControlRequest.message_spec size
                (control_request (record { message_type = 0; data_bytes = b })))
            ≡ ok response)
      → subscriber_key_of response ≡ ok k
      → task_consumer env.answer env.marshal env.drawn ts ≡ ok k
  unfolding task_consumer call_responder request_id_of make_channel
  task_consumer-eq ts b response k n positive known fits small answers key =
      let (size, made, _) =
        new_task_subscription_message-eq env.marshal env.drawn ts b known fits small in
      rw (made, positive, answers size) key

  -- If the broker is reached and answers the request for the subscription with the topic, the lock
  -- owner, the task type and the partition, as an int32, of the flags, with a lock duration of 300000,
  -- no subscriber key and 32 credits, by a response with a subscriber key, then open prints the data of the messages
  -- that arrive, in their order, and waits for more; at the first message that has no data it panics.
  -- The subscription is serialised in fewer than 2 ^ 16 bytes, and the id that is drawn fits its Go type.
  pub open_action-eq :
      (c : Context) (b : Bytes) (response : Message (Data X)) (k : ℕ)
      (events : List (Message (Data X) × Data X)) (m : Message (Data X))
      (rest : List (Message (Data X)))
      → env.marshal (subscription_command (subscription_of c)) ≡ some b
      → length b < 2 ^ 16
      → env.drawn < 2 ^ 64
      → env.dial (contact_string conf.broker) ≡ none
      → ((size : ℕ)
          → env.answer (
              request_message env.drawn ControlRequest.message_spec size
                (control_request (record { message_type = 0; data_bytes = b })))
            ≡ ok response)
      → subscriber_key_of response ≡ ok k
      → m.payload ≡ none
      → (open_action env conf (with_data events) c ≡ (event_lines events, ok tt))
        × (open_action env conf (with_data events ++ m ∷ rest) c
            ≡ (event_lines events, panic nil_pointer))
  unfolding open_action open_subscription connect is_fatal try print_events
  open_action-eq c b response k events m rest known fits small dialled answers key empty =
      let opened =
        task_consumer-eq (subscription_of c) b response k 32 refl known fits small answers key in
      (
        rw (
          dialled,
          opened,
          ← append-nil (with_data events),
          print_events-append events [],
          append-nil,
        ),
        rw (dialled, opened, print_events-append events (m ∷ rest), empty, append-nil),
      )
