-- ===== src/Request/Tasks.antt =====
-- NewCompleteTaskMessage on the message of a task.
use zbc_go.Common.{ℕ, String, ◌^◌, ◌<◌, ◌≡◌, refl, Option, some, List, []}
use zbc_go.Wire.{Bytes, ok}
use zbc_go.Sbe.ExecuteCommandRequest as CommandRequest
use zbc_go.Sbe.ExecuteCommandRequest.{ExecuteCommandRequest}
use zbc_go.Sbe.ExecuteCommandRequest.Laws as CommandRequestLaws
use zbc_go.Sbe.SubscribedEvent.{SubscribedEvent}
use zbc_go.Message.{Headers, command_request, subscribed_event}
use zbc_go.Request.{Command, data_command, new_complete_task_message}
use zbc_go.Request.{as_subscribed_event}
use zbc_go.Request.Values.{
  Value, Data, data_of, text_value, set_entry, set_value, get_value, get_entry-set_entry,
}
use zbc_go.Request.Laws.{request_message, SoundRequest, new_command_request_message-eq}

-- The request that completes the task of an event.
abbrev pub complete_request : SubscribedEvent → Bytes → ExecuteCommandRequest
complete_request s b = record {
  partition_id = s.partition_id;
  position = s.position;
  key = s.key;
  event_type = 0;
  topic_name = s.topic_name;
  command = b;
}

module _ {X : Type 0} (marshal : Command X → Option Bytes) (drawn : ℕ) where
  -- For the message of a subscribed event `s` with a map, NewCompleteTaskMessage sets the entry
  -- "state" of that map to "COMPLETE", and returns a task request with the partition, position, key
  -- and topic of `s` and the serialised map, whose frame length is right. The map is serialised as
  -- `b`, and the fields of the request and the id that is drawn fit their Go types.
  pub new_complete_task_message-eq :
      (headers : Option Headers) (s : SubscribedEvent) (entries : List (String × Value X))
      (b : Bytes)
      → marshal (data_command (data_of (set_entry "state" (text_value "COMPLETE") entries)))
        ≡ some b
      → CommandRequestLaws.Fits (complete_request s b)
      → drawn < 2 ^ 64
      → (size : ℕ) × (after : Data X) × (new_complete_task_message marshal drawn (record {
        headers = headers;
        sbe_message = some (subscribed_event s);
        payload = some (data_of entries);
      })
          ≡ ok (
            some (
                request_message drawn CommandRequest.message_spec size
                  (command_request (complete_request s b))),
            record {
              headers = headers;
              sbe_message = some (subscribed_event s);
              payload = some after;
            },
          ))
        × (get_value "state" after ≡ some (text_value "COMPLETE"))
        × (marshal (data_command after) ≡ some b)
        × SoundRequest drawn CommandRequest.message_spec size
            (command_request (complete_request s b))
  unfolding new_complete_task_message as_subscribed_event set_value get_value
  new_complete_task_message-eq headers s entries b known fits small =
      let after : Data X = data_of (set_entry "state" (text_value "COMPLETE") entries) in
      let (size, made, sound) =
        new_command_request_message-eq marshal drawn (complete_request s []) (data_command after) b
          known fits small in
      (
        size,
        after,
        rw made,
        get_entry-set_entry "state" (text_value "COMPLETE") refl entries,
        known,
        sound,
      )
