-- ===== src/Request.antt =====
-- zbc/request.go: the messages that the client sends. A constructor that writes to its argument
-- returns the argument as it leaves it. `drawn` is the request id that the random source draws, and
-- `marshal` the MessagePack library's function, which fails by `none`.
pub mod Values
pub mod Laws
pub mod Tasks
pub mod Payloads
pub mod Wire
use zbc_go.Common.{ℕ, ℤ, ◌+◌, ◌^◌, ◌%◌, String, Option, none, some, [], length}
use zbc_go.Wire.{Bytes, Outcome, ok, panic, type_assertion}
use zbc_go.Wire.Outcomes.{◌>>=◌, deref}
use zbc_go.Protocol.{request_response, new_frame_header, new_transport_header}
use zbc_go.Protocol.{new_request_response_header}
use zbc_go.Sbe.MessageHeader.{MessageHeader}
use zbc_go.Sbe.ExecuteCommandRequest as CommandRequest
use zbc_go.Sbe.ExecuteCommandRequest.{ExecuteCommandRequest}
use zbc_go.Sbe.ControlMessageRequest as ControlRequest
use zbc_go.Sbe.ControlMessageRequest.{ControlMessageRequest}
use zbc_go.Sbe.SubscribedEvent.{SubscribedEvent}
use zbc_go.Sbe.Field.{MessageSpec}
use zbc_go.Message.{Headers, Message, Sbe, no_message, no_headers, set_headers, set_sbe_message}
use zbc_go.Message.{command_request, command_response, control_request, control_response}
use zbc_go.Message.{subscribed_event, set_data, set_sbe_message_header, set_request_response_header}
use zbc_go.Message.{set_transport_header, set_frame_header, length_field_size}
use zbc_go.Message.{total_header_size_no_frame}
use zbc_go.Request.Values.{Data, text_value, set_value}

-- A payload that was never set is nil, which is `none`.
pub record Task (X : Type 0) : Type 0 where
  pub state : String
  pub headers : Data X
  pub retries : ℕ
  pub task_type : String
  pub payload : Option Bytes
  pub payload_json : Data X

pub record WorkflowInstance (X : Type 0) : Type 0 where
  pub state : String
  pub bpmn_process_id : String
  pub version : ℕ
  pub payload : Option Bytes
  pub payload_json : Data X

pub record Deployment : Type 0 where
  pub state : String
  pub bpmn_xml : Bytes

pub record TaskSubscription : Type 0 where
  pub subscriber_key : ℕ
  pub topic_name : String
  pub partition_id : ℤ
  pub task_type : String
  pub lock_duration : ℕ
  pub lock_owner : String
  pub credits : ℤ

-- What is behind the interface{} that is given to msgpack.Marshal.
pub data Command (X : Type 0) : Type 0 where
  data_command : Data X → Command X
  task_command : Task X → Command X
  workflow_command : WorkflowInstance X → Command X
  deployment_command : Deployment → Command X
  subscription_command : TaskSubscription → Command X

-- An SBE header from the accessors of a message type.
unfoldable pub sbe_header : MessageSpec → MessageHeader
sbe_header spec = record {
  block_length = spec.block_length;
  template_id = spec.template_id;
  schema_id = spec.schema_id;
  version = spec.schema_version;
}

-- The headers that both constructors set, in their order.
unfoldable pub request_headers : ℕ → MessageSpec → ℕ → Headers
unfolding sbe_header
request_headers drawn spec size = set_frame_header (some (new_frame_header size 0 0 0 2)) (
    set_transport_header (some (new_transport_header request_response)) (
      set_request_response_header (some (new_request_response_header drawn))
        (set_sbe_message_header (some (sbe_header spec)) no_headers)))

-- The uint32 sum of NewCommandRequestMessage.
unfoldable pub command_frame_length : ExecuteCommandRequest → ℕ
command_frame_length e =
    ((length_field_size + length e.topic_name) % 2 ^ 32
      + (length_field_size + length e.command) % 2 ^ 32
      + (CommandRequest.message_spec.block_length + total_header_size_no_frame))
    % 2 ^ 32

-- The uint32 sum of NewTaskSubscriptionMessage.
unfoldable pub subscription_frame_length : ControlMessageRequest → ℕ
subscription_frame_length c = (1 + (2 + length c.data_bytes) % 2 ^ 32 + 18) % 2 ^ 32

-- (*message.SbeMessage).(*sbe.SubscribedEvent)
unfoldable pub as_subscribed_event : Option Sbe → Outcome SubscribedEvent
as_subscribed_event sbe = do
  part ← deref sbe
  elim part [ subscribed_event s ↦ ok s | _ ↦ panic type_assertion ]

module _ {X : Type 0} (marshal : Command X → Option Bytes) (drawn : ℕ) where
  unfoldable pub new_command_request_message :
      ExecuteCommandRequest → Command X → Option (Message (Data X)) × ExecuteCommandRequest
  unfolding command_frame_length request_headers
  new_command_request_message request command = elim (marshal command) [
    | none ↦ (none, request)
    | some b ↦
        let request' = record request { command = b } in
        let msg = set_sbe_message (command_request request') no_message in
        let headers =
          request_headers drawn CommandRequest.message_spec (command_frame_length request') in
        (some (set_headers (some headers) msg), request')
  ]

  -- The payload of a task, serialised from its JSON where it is nil.
  unfoldable pub fill_payload : Option Bytes → Data X → Option Bytes
  fill_payload none json = marshal (data_command json)
  fill_payload (some b) json = some b

  unfoldable pub new_task_message :
      ExecuteCommandRequest → Task X → Option (Message (Data X)) × ExecuteCommandRequest × Task X
  unfolding new_command_request_message fill_payload
  new_task_message request task =
      let request' = record request { event_type = 0 } in
      elim (fill_payload task.payload task.payload_json) [
        | none ↦ (none, request', task)
        | some b ↦
            let task' = record task { payload = some b } in
            let (msg, request'') = new_command_request_message request' (task_command task') in
            (msg, request'', task')
      ]

  unfoldable pub new_workflow_message :
      ExecuteCommandRequest
      → WorkflowInstance X
      → Option (Message (Data X)) × ExecuteCommandRequest × WorkflowInstance X
  unfolding new_command_request_message fill_payload
  new_workflow_message request wf =
      let request' = record request { event_type = 5 } in
      elim (fill_payload wf.payload wf.payload_json) [
        | none ↦ (none, request', wf)
        | some b ↦
            let wf' = record wf { payload = some b } in
            let (msg, request'') = new_command_request_message request' (workflow_command wf') in
            (msg, request'', wf')
      ]

  unfoldable pub new_deployment_message :
      ExecuteCommandRequest → Deployment → Option (Message (Data X)) × ExecuteCommandRequest
  unfolding new_command_request_message
  new_deployment_message request d =
      new_command_request_message (record request { event_type = 4 }) (deployment_command d)

  unfoldable pub new_task_subscription_message : TaskSubscription → Option (Message (Data X))
  unfolding subscription_frame_length request_headers
  new_task_subscription_message ts = elim (marshal (subscription_command ts)) [
    | none ↦ none
    | some b ↦
        let request : ControlMessageRequest = record { message_type = 0; data_bytes = b } in
        let msg = set_sbe_message (control_request request) no_message in
        let headers =
          request_headers drawn ControlRequest.message_spec (subscription_frame_length request) in
        some (set_headers (some headers) msg)
  ]

  -- The map of the task message is written to, and stays so.
  unfoldable pub new_complete_task_message :
      Message (Data X) → Outcome (Option (Message (Data X)) × Message (Data X))
  unfolding new_command_request_message as_subscribed_event
  new_complete_task_message task_message = do
    old ← deref task_message.payload
    payload ← set_value "state" (text_value "COMPLETE") old
    s ← as_subscribed_event task_message.sbe_message
    let request : ExecuteCommandRequest = record {
      partition_id = s.partition_id;
      position = s.position;
      key = s.key;
      event_type = 0;
      topic_name = s.topic_name;
      command = [];
    }
    let (msg, _) = new_command_request_message request (data_command payload)
    ok (msg, set_data (some payload) task_message)
