-- ===== src/Tests/Sbe.antt =====
-- The SBE codecs on small messages.
use zbc_go.Common.{◌≡◌, ◌≢◌, refl, arith, true, false, [], ◌∷◌, ◌++◌, ◌-◌, ◌^◌}
use zbc_go.Wire.{Bytes, ok, err, little_endian, big_endian}
use zbc_go.Wire.{read_uint}
use zbc_go.Wire.{write_uint, out_of_range}
use zbc_go.Sbe.Field.{read_field, read_enum_field, read_var_field, write_var, skip_extension}
use zbc_go.Sbe.Field.{check_field, check_enum, check_utf8}
use zbc_go.Sbe.MessageHeader.{MessageHeader}
use zbc_go.Sbe.ExecuteCommandResponse.{ExecuteCommandResponse}
use zbc_go.Sbe.ExecuteCommandResponse as Response
use zbc_go.Sbe.ExecuteCommandResponse.Laws as ResponseLaws
use zbc_go.Sbe.ExecuteCommandRequest.{ExecuteCommandRequest}
use zbc_go.Sbe.ExecuteCommandRequest as Request
use zbc_go.Sbe.ExecuteCommandRequest.Position.{ExecuteCommandRequest-decode-encode}
use zbc_go.Sbe.SubscribedEvent.{SubscribedEvent}
use zbc_go.Sbe.SubscribedEvent as Event
use zbc_go.Sbe.SubscribedEvent.Laws as EventLaws
use zbc_go.Sbe.ErrorResponse.{ErrorResponse}
use zbc_go.Sbe.SubscribedEvent.Range.{InRange, SubscribedEvent-range_check_iff}
use zbc_go.Common.{◌↔◌}
use zbc_go.Sbe.ControlMessageRequest.{ControlMessageRequest}
use zbc_go.Sbe.ControlMessageResponse.{ControlMessageResponse}

abbrev pub response : ExecuteCommandResponse
response = record {
  partition_id = 1;
  position = 258;
  key = 7;
  topic_name = b'h' ∷ b'i' ∷ [];
  event = 0xc0 ∷ [];
}

abbrev pub no_response : ExecuteCommandResponse
no_response = record { partition_id = 0; position = 0; key = 0; topic_name = []; event = [] }

abbrev pub response_bytes : Bytes
response_bytes =
    1 ∷ 0 ∷ 2 ∷ 1 ∷ 0 ∷ 0 ∷ 0 ∷ 0 ∷ 0 ∷ 0 ∷ 7 ∷ 0 ∷ 0 ∷ 0 ∷ 0 ∷ 0 ∷ 0 ∷ 0 ∷ 2 ∷ 0 ∷ b'h' ∷ b'i' ∷ 1
    ∷ 0 ∷ 0xc0 ∷ []

response_runs : Response.encode response little_endian true [] ≡ ok (tt, response_bytes)
unfolding Response.encode Response.range_check check_field check_utf8 write_uint write_var
response_runs = refl

pub response_decodes :
    Response.decode no_response little_endian 1 18 true response_bytes ≡ ok (response, [])
unfolding Response.decode Response.range_check check_field check_utf8 read_field read_var_field
    read_uint skip_extension
response_decodes = refl

-- RangeCheck refuses the null value of Position.
null_position :
    Response.range_check (record response { position = 2 ^ 63 - 1 }) 1 1
    ≡ err (out_of_range "e.Position" 0 (2 ^ 63 - 1) (2 ^ 63 - 2))
unfolding Response.range_check check_field
null_position = refl

ExecuteCommandResponse-decode-encode_example :
    (bs : Bytes) × (Response.encode response little_endian false [] ≡ ok (tt, bs))
    × (Response.decode no_response little_endian 1 18 true (bs ++ 0 ∷ []) ≡ ok (response, 0 ∷ []))
unfolding Response.range_check check_field check_utf8
ExecuteCommandResponse-decode-encode_example =
    ResponseLaws.ExecuteCommandResponse-decode-encode response no_response little_endian 18 false
      true (omega arith) (λ _. refl) (λ _. refl) (0 ∷ [])

ExecuteCommandResponse-decode_truncated_example :
    Response.decode no_response little_endian 1 18 true (1 ∷ 0 ∷ 2 ∷ []) ≢ ok (no_response, [])
unfolding Response.range_check check_field check_utf8
ExecuteCommandResponse-decode_truncated_example =
    ResponseLaws.ExecuteCommandResponse-decode_truncated response no_response little_endian 18 true
      true (1 ∷ 0 ∷ 2 ∷ [])
      (0 ∷ 0 ∷ 0 ∷ 0 ∷ 0 ∷ 0 ∷ 7 ∷ 0 ∷ 0 ∷ 0 ∷ 0 ∷ 0 ∷ 0 ∷ 0 ∷ 2 ∷ 0 ∷ b'h' ∷ b'i' ∷ 1 ∷ 0 ∷ 0xc0
        ∷ [])
      1 (omega arith) refl response_runs no_response []

abbrev pub event : SubscribedEvent
event = record {
  partition_id = 1;
  position = 258;
  key = 7;
  subscriber_key = 65536;
  subscription_type = 0;
  event_type = 5;
  topic_name = b't' ∷ [];
  event = 0x80 ∷ [];
}

abbrev pub no_event : SubscribedEvent
no_event = record {
  partition_id = 0;
  position = 0;
  key = 0;
  subscriber_key = 0;
  subscription_type = 0;
  event_type = 0;
  topic_name = [];
  event = [];
}

SubscribedEvent-decode-encode_example :
    (bs : Bytes) × (Event.encode event big_endian false [] ≡ ok (tt, bs))
    × (Event.decode no_event big_endian 1 28 true (bs ++ 5 ∷ []) ≡ ok (event, 5 ∷ []))
unfolding Event.range_check check_field check_enum
SubscribedEvent-decode-encode_example =
    EventLaws.SubscribedEvent-decode-encode event no_event big_endian 28 false true (omega arith)
      (λ _. refl) (λ _. refl) (5 ∷ [])

abbrev pub event_bytes : Bytes
event_bytes =
    1 ∷ 0 ∷ 2 ∷ 1 ∷ 0 ∷ 0 ∷ 0 ∷ 0 ∷ 0 ∷ 0 ∷ 7 ∷ 0 ∷ 0 ∷ 0 ∷ 0 ∷ 0 ∷ 0 ∷ 0 ∷ 0 ∷ 0 ∷ 1 ∷ 0 ∷ 0 ∷ 0
    ∷ 0 ∷ 0 ∷ 0 ∷ 5 ∷ 1 ∷ 0 ∷ b't' ∷ 1 ∷ 0 ∷ 0x80 ∷ []

pub event_decodes : Event.decode no_event little_endian 1 28 true event_bytes ≡ ok (event, [])
unfolding Event.decode Event.range_check check_field check_enum read_field read_enum_field
    read_var_field read_uint skip_extension
event_decodes = refl

abbrev pub failure : ErrorResponse
failure = record { error_code = 1; error_data = b'n' ∷ []; failed_request = [] }

abbrev pub no_failure : ErrorResponse
no_failure = record { error_code = 0; error_data = []; failed_request = [] }

abbrev pub control : ControlMessageRequest
control = record { message_type = 2; data_bytes = 0x0a ∷ [] }

abbrev pub no_control : ControlMessageRequest
no_control = record { message_type = 0; data_bytes = [] }

abbrev pub answer : ControlMessageResponse
answer = record { data_bytes = 0xff ∷ 0x00 ∷ [] }

abbrev pub header : MessageHeader
header = record { block_length = 19; template_id = 20; schema_id = 0; version = 1 }

abbrev request : ExecuteCommandRequest
request = record {
  partition_id = 3;
  position = 0x0002_0000_0009;
  key = 0;
  event_type = 0;
  topic_name = b't' ∷ [];
  command = [];
}

abbrev no_request : ExecuteCommandRequest
no_request = record {
  partition_id = 0;
  position = 0;
  key = 0;
  event_type = 0;
  topic_name = [];
  command = [];
}

abbrev request_bytes : Bytes
request_bytes =
    3 ∷ 0 ∷ 9 ∷ 0 ∷ 0 ∷ 0 ∷ 2 ∷ 0 ∷ 0 ∷ 0 ∷ 0 ∷ 0 ∷ 0 ∷ 0 ∷ 0 ∷ 0 ∷ 0 ∷ 0 ∷ 0 ∷ 1 ∷ 0 ∷ b't' ∷ 0 ∷ 0
    ∷ []

request_runs : Request.encode request little_endian false [] ≡ ok (tt, request_bytes)
unfolding Request.encode write_uint write_var
request_runs = refl

-- The Key is the Position, the EventType the first byte of the Key, and the topic is gone.
request_decodes :
    Request.decode no_request little_endian 1 19 true request_bytes
    ≡ ok (
      record no_request { partition_id = 3; key = 0x0002_0000_0009 },
      0 ∷ 0 ∷ 0 ∷ 0 ∷ 1 ∷ 0 ∷ b't' ∷ 0 ∷ 0 ∷ [],
    )
unfolding Request.decode Request.range_check check_field check_enum check_utf8 read_field
    read_enum_field read_var_field read_uint skip_extension
request_decodes = refl

ExecuteCommandRequest-decode-encode_example :
    (3 ≡ request.partition_id) × (0x0002_0000_0009 ≡ request.position) × (0 ≡ no_request.position)
ExecuteCommandRequest-decode-encode_example =
    ExecuteCommandRequest-decode-encode request no_request
      (record no_request { partition_id = 3; key = 0x0002_0000_0009 }) little_endian 19 true
      request_bytes [] _ (omega arith) request_runs (omega arith) request_decodes

SubscribedEvent-range_check_iff_example : (Event.range_check event 1 1 ≡ ok tt) ↔ InRange event
SubscribedEvent-range_check_iff_example = SubscribedEvent-range_check_iff event
