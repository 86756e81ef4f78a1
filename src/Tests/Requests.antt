-- ===== src/Tests/Requests.antt =====
-- The constructors of zbc/request.go on small requests.
use zbc_go.Common.{pos, String, ℕ, ◌≡◌, refl, arith, Option, none, some, List, [], ◌∷◌}
use zbc_go.Wire.{Bytes, ok}
use zbc_go.Sbe.ExecuteCommandRequest.{ExecuteCommandRequest, message_spec}
use zbc_go.Sbe.ControlMessageRequest as ControlRequest
use zbc_go.Message.{command_request, control_request, subscribed_event}
use zbc_go.Request.{Command, data_command, task_command, workflow_command, deployment_command}
use zbc_go.Request.{subscription_command, TaskSubscription, new_command_request_message}
use zbc_go.Request.{new_task_subscription_message, new_complete_task_message}
use zbc_go.Request.Values.{Data, Value, nil_data, data_of, text_value, get_value}
use zbc_go.Request.Laws.{request_message, SoundRequest, new_command_request_message-eq}
use zbc_go.Request.Tasks.{complete_request, new_complete_task_message-eq}
use zbc_go.Request.{
  Task, WorkflowInstance, Deployment, fill_payload, new_task_message, new_workflow_message,
}
use zbc_go.Request.{new_deployment_message}
use zbc_go.Request.Payloads.{filled, Announcing}
use zbc_go.Request.Payloads.{commands-eq}
use zbc_go.Common.{◌<◌, replicate}
use zbc_go.Wire.{write_uint}
use zbc_go.Protocol.{encode_frame_header, encode_transport_header, encode_request_response_header}
use zbc_go.Protocol.{new_frame_header, new_transport_header, new_request_response_header}
use zbc_go.Sbe.Field.{write_var}
use zbc_go.Sbe.MessageHeader as Header
use zbc_go.Sbe.ExecuteCommandRequest as CommandRequest
use zbc_go.Message.{Message, encode_sbe, is_single_message}
use zbc_go.Writer.{write, write_headers, write_message, fatal_on_error, align}
use zbc_go.Writer.Laws.{full_headers, sbe_layout}
use zbc_go.Reader.Headers.{read_headers}
use zbc_go.Reader.Laws.{reader}
use zbc_go.Request.{request_headers, command_frame_length, sbe_header}
use zbc_go.Request.Laws.{request_frame, request_transport, request_pair}
use zbc_go.Request.Wire.{read_headers-new_command_request_message}
use zbc_go.Tests.Broker.{event}

-- A MessagePack library that knows no nil map.
unfoldable pub marshal : Command (Unit {0}) → Option Bytes
marshal (data_command nil_data) = none
marshal (data_command (data_of entries)) = some (0x81 ∷ 1 ∷ [])
marshal (task_command task) = some (0x82 ∷ [])
marshal (workflow_command wf) = some (0x83 ∷ [])
marshal (deployment_command d) = some (0x84 ∷ [])
marshal (subscription_command ts) = some (0x87 ∷ 2 ∷ 3 ∷ [])

abbrev pub request : ExecuteCommandRequest
request = record {
  partition_id = 0;
  position = 0;
  key = 0;
  event_type = 4;
  topic_name = b't' ∷ [];
  command = [];
}

abbrev entries : List (String × Value (Unit {0}))
entries = ("type", text_value "foo") ∷ ("state", text_value "LOCKED") ∷ []

abbrev subscription : TaskSubscription
subscription = record {
  subscriber_key = 0;
  topic_name = "default-topic";
  partition_id = pos 0;
  task_type = "foo";
  lock_duration = 1000;
  lock_owner = "me";
  credits = pos 3;
}

new_command_request_message-eq_example :
    (size : ℕ) × (new_command_request_message marshal 7 request (data_command (data_of entries)) ≡ (
      some (
          request_message 7 message_spec size
            (command_request (record request { command = 0x81 ∷ 1 ∷ [] }))),
      record request { command = 0x81 ∷ 1 ∷ [] },
    ))
    × SoundRequest 7 message_spec size
        (command_request (record request { command = 0x81 ∷ 1 ∷ [] }))
unfolding marshal
new_command_request_message-eq_example =
    new_command_request_message-eq marshal 7 request (data_command (data_of entries))
      (0x81 ∷ 1 ∷ []) refl (omega arith) (omega arith)

new_complete_task_message-eq_example :
    (size : ℕ) × (after : Data (Unit {0})) × (new_complete_task_message marshal 7 (record {
      headers = none;
      sbe_message = some (subscribed_event event);
      payload = some (data_of entries);
    })
      ≡ ok (
        some (
            request_message 7 message_spec size
              (command_request (complete_request event (0x81 ∷ 1 ∷ [])))),
        record {
          headers = none;
          sbe_message = some (subscribed_event event);
          payload = some after;
        },
      ))
    × (get_value "state" after ≡ some (text_value "COMPLETE"))
    × (marshal (data_command after) ≡ some (0x81 ∷ 1 ∷ []))
    × SoundRequest 7 message_spec size (command_request (complete_request event (0x81 ∷ 1 ∷ [])))
unfolding marshal
new_complete_task_message-eq_example =
    new_complete_task_message-eq marshal 7 none event entries (0x81 ∷ 1 ∷ []) refl (omega arith)
      (omega arith)

abbrev task : Task (Unit {0})
task = record {
  state = "CREATE";
  headers = data_of [];
  retries = 3;
  task_type = "foo";
  payload = none;
  payload_json = data_of entries;
}

abbrev workflow : WorkflowInstance (Unit {0})
workflow = record {
  state = "CREATE_WORKFLOW_INSTANCE";
  bpmn_process_id = "order";
  version = 1;
  payload = some (0xc0 ∷ []);
  payload_json = nil_data;
}

abbrev pub deployment : Deployment
deployment = record { state = "CREATE_DEPLOYMENT"; bpmn_xml = b'<' ∷ [] }

-- A task without a payload gets that of its JSON.
commands-eq_example :
    (Announcing 7 (filled request 0 (0x82 ∷ [])) (new_task_message marshal 7 request task).0
      × ((new_task_message marshal 7 request task).1 ≡ filled request 0 (0x82 ∷ []))
      × ((new_task_message marshal 7 request task).2
          ≡ record task { payload = some (0x81 ∷ 1 ∷ []) }))
    × (Announcing 7
          (filled request 5 (0x83 ∷ []))
          (new_workflow_message marshal 7 request workflow).0
        × ((new_workflow_message marshal 7 request workflow).1 ≡ filled request 5 (0x83 ∷ []))
        × ((new_workflow_message marshal 7 request workflow).2 ≡ workflow))
    × (Announcing 7
          (filled request 4 (0x84 ∷ []))
          (new_deployment_message marshal 7 request deployment).0
        × ((new_deployment_message marshal 7 request deployment).1 ≡ filled request 4 (0x84 ∷ [])))
    × ((size : ℕ) × (new_task_subscription_message marshal 7 subscription
          ≡ some (
              request_message 7 ControlRequest.message_spec size
                (control_request (record { message_type = 0; data_bytes = 0x87 ∷ 2 ∷ 3 ∷ [] }))))
        × SoundRequest 7 ControlRequest.message_spec size
            (control_request (record { message_type = 0; data_bytes = 0x87 ∷ 2 ∷ 3 ∷ [] })))
unfolding marshal fill_payload
commands-eq_example =
    commands-eq marshal 7 (omega arith) request task workflow deployment subscription
      (0x81 ∷ 1 ∷ []) (0x82 ∷ []) (0xc0 ∷ []) (0x83 ∷ []) (0x84 ∷ []) (0x87 ∷ 2 ∷ 3 ∷ []) refl refl
      (omega arith) refl refl (omega arith) refl (omega arith) refl (omega arith)

abbrev request_bytes : Bytes
request_bytes =
    43 ∷ 0 ∷ 0 ∷ 0 ∷ 0 ∷ 0 ∷ 0 ∷ 0 ∷ 2 ∷ 0 ∷ 0 ∷ 0 ∷ 0 ∷ 0 ∷ 7 ∷ 0 ∷ 0 ∷ 0 ∷ 0 ∷ 0 ∷ 0 ∷ 0 ∷ 19 ∷ 0
    ∷ 20 ∷ 0 ∷ 0 ∷ 0 ∷ 1 ∷ 0 ∷ 0 ∷ 0 ∷ 0 ∷ 0 ∷ 0 ∷ 0 ∷ 0 ∷ 0 ∷ 0 ∷ 0 ∷ 0 ∷ 0 ∷ 0 ∷ 0 ∷ 0 ∷ 0 ∷ 0 ∷ 0
    ∷ 4 ∷ 1 ∷ 0 ∷ b't' ∷ 1 ∷ 0 ∷ 0x84 ∷ 0 ∷ []

abbrev sent_message : Message (Data (Unit {0}))
sent_message =
    request_message 7 message_spec 43 (command_request (record request { command = 0x84 ∷ [] }))

request-made :
    (new_command_request_message marshal 7 request (deployment_command deployment)).0
    ≡ some sent_message
unfolding new_command_request_message request_headers command_frame_length marshal
request-made = refl

request-written : write sent_message [] ≡ ok (tt, request_bytes)
unfolding write write_headers write_message fatal_on_error align encode_sbe is_single_message
    encode_frame_header encode_transport_header encode_request_response_header Header.encode
    CommandRequest.encode write_uint write_var sbe_header new_frame_header new_transport_header
    new_request_response_header
request-written = refl

read_headers-new_command_request_message_example :
    (size : ℕ) × (n : ℕ) × (n < 8)
    × (read_headers (reader 64 [] (request_bytes ∷ [])) ≡ (
      ok (
          some (
            full_headers
                (request_frame size)
                request_transport
                (request_pair 7)
                (sbe_header message_spec),
            sbe_layout (command_request (record request { command = 0x84 ∷ [] })),
          )),
      reader 64 (replicate n 0) [],
    ))
unfolding marshal
read_headers-new_command_request_message_example =
    read_headers-new_command_request_message marshal 7 request (deployment_command deployment)
      (0x84 ∷ []) request_bytes sent_message 64 [] refl (omega arith) (omega arith) request-made
      request-written (omega arith)
