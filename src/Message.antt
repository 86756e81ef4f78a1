-- ===== src/Message.antt =====
-- zbc/message.go: the headers of a message, and its three parts.
use zbc_go.Common.{ℕ, Bool, true, false, Option, none, some}
use zbc_go.Wire.{Stream, ByteOrder, panic, nil_pointer, return}
use zbc_go.Protocol.{FrameHeader, TransportHeader, RequestResponseHeader}
use zbc_go.Sbe.MessageHeader.{MessageHeader}
use zbc_go.Sbe.ExecuteCommandRequest
use zbc_go.Sbe.ExecuteCommandRequest.{ExecuteCommandRequest}
use zbc_go.Sbe.ExecuteCommandResponse
use zbc_go.Sbe.ExecuteCommandResponse.{ExecuteCommandResponse}
use zbc_go.Sbe.SubscribedEvent
use zbc_go.Sbe.SubscribedEvent.{SubscribedEvent}
use zbc_go.Sbe.ControlMessageRequest
use zbc_go.Sbe.ControlMessageRequest.{ControlMessageRequest}
use zbc_go.Sbe.ControlMessageResponse
use zbc_go.Sbe.ControlMessageResponse.{ControlMessageResponse}

abbrev pub template_id_execute_command_request : ℕ
template_id_execute_command_request = 20

abbrev pub template_id_execute_command_response : ℕ
template_id_execute_command_response = 21

abbrev pub template_id_control_message_response : ℕ
template_id_control_message_response = 11

abbrev pub template_id_subscription_event : ℕ
template_id_subscription_event = 30

abbrev pub frame_header_size : ℕ
frame_header_size = 12

abbrev pub transport_header_size : ℕ
transport_header_size = 2

abbrev pub request_response_header_size : ℕ
request_response_header_size = 8

abbrev pub sbe_message_header_size : ℕ
sbe_message_header_size = 8

abbrev pub total_header_size_no_frame : ℕ
total_header_size_no_frame = 18

abbrev pub length_field_size : ℕ
length_field_size = 2

-- Each field is a Go pointer.
pub record Headers : Type 0 where
  pub frame_header : Option FrameHeader
  pub transport_header : Option TransportHeader
  pub request_response_header : Option RequestResponseHeader
  pub sbe_message_header : Option MessageHeader

-- `var headers Headers`
abbrev pub no_headers : Headers
no_headers = record {
  frame_header = none;
  transport_header = none;
  request_response_header = none;
  sbe_message_header = none;
}

abbrev pub set_frame_header : Option FrameHeader → Headers → Headers
set_frame_header header h = record h { frame_header = header }

abbrev pub set_transport_header : Option TransportHeader → Headers → Headers
set_transport_header header h = record h { transport_header = header }

abbrev pub set_request_response_header : Option RequestResponseHeader → Headers → Headers
set_request_response_header header h = record h { request_response_header = header }

abbrev pub set_sbe_message_header : Option MessageHeader → Headers → Headers
set_sbe_message_header header h = record h { sbe_message_header = header }

unfoldable pub is_single_message : Headers → Bool
is_single_message h = elim h.request_response_header [ none ↦ true | some _ ↦ false ]

-- The types that stand behind the interface SBE in this program.
pub data Sbe : Type 0 where
  command_request : ExecuteCommandRequest → Sbe
  command_response : ExecuteCommandResponse → Sbe
  control_request : ControlMessageRequest → Sbe
  control_response : ControlMessageResponse → Sbe
  subscribed_event : SubscribedEvent → Sbe

-- The interface's Encode.
unfoldable pub encode_sbe : Sbe → ByteOrder → Bool → Stream (Unit {0})
encode_sbe (command_request e) order b = ExecuteCommandRequest.encode e order b
encode_sbe (command_response e) order b = ExecuteCommandResponse.encode e order b
encode_sbe (control_request c) order b = ControlMessageRequest.encode c order b
encode_sbe (control_response c) order b = ControlMessageResponse.encode c order b
encode_sbe (subscribed_event s) order b = SubscribedEvent.encode s order b

-- `D` is the type of the MessagePack data, `map[string]interface{}`.
pub record Message (D : Type 0) : Type 0 where
  pub headers : Option Headers
  pub sbe_message : Option Sbe
  pub payload : Option D

-- `var msg Message`
abbrev pub no_message : {D : Type 0} → Message D
no_message = record { headers = none; sbe_message = none; payload = none }

abbrev pub set_headers : {D : Type 0} → Option Headers → Message D → Message D
set_headers h m = record m { headers = h }

abbrev pub set_sbe_message : {D : Type 0} → Sbe → Message D → Message D
set_sbe_message s m = record m { sbe_message = some s }

abbrev pub set_data : {D : Type 0} → Option D → Message D → Message D
set_data d m = record m { payload = d }

-- A dereference of a pointer that may be nil.
abbrev pub deref : {A : Type 0} → Option A → Stream A
deref none s = panic nil_pointer
deref (some a) s = return a s
