-- ===== src/Tests/Unknown.antt =====
-- A single message of a template that ParseMessage does not know.
use zbc_go.Common.{◌≡◌, refl, arith, none, [], ◌∷◌}
use zbc_go.Wire.{Bytes, ok, nil_pointer, write_uint, uint_bytes}
use zbc_go.Protocol.{FrameHeader, encode_frame_header, encode_transport_header}
use zbc_go.Sbe.Field.{write_var}
use zbc_go.Sbe.MessageHeader.{MessageHeader}
use zbc_go.Sbe.MessageHeader as Header
use zbc_go.Sbe.MessageHeader.Laws as HeaderLaws
use zbc_go.Sbe.ControlMessageRequest as ControlRequest
use zbc_go.Sbe.ControlMessageRequest.Laws as ControlRequestLaws
use zbc_go.Message.{Sbe, control_request, encode_sbe, is_single_message}
use zbc_go.Writer.{write, write_headers, write_message, fatal_on_error, align}
use zbc_go.Writer.Laws.{full_message, sbe_layout, after_frame_layout, request_response_layout}
use zbc_go.Request.Values.{Data}
use zbc_go.Reader.RoundTrip.{Sound}
use zbc_go.Client.{Client, nil_channel, crashed, receive}
use zbc_go.Client.Unknown.{receive-unknown}
use zbc_go.Tests.Broker.{unmarshal, event_transport}

abbrev frame : FrameHeader
frame = record { frame_length = 14; version = 0; flags = 0; type_id = 0; stream_id = 2 }

abbrev header : MessageHeader
header = record { block_length = 1; template_id = 10; schema_id = 0; version = 1 }

abbrev body : Sbe
body = control_request (record { message_type = 4; data_bytes = 0xc0 ∷ [] })

abbrev bytes : Bytes
bytes =
    14 ∷ 0 ∷ 0 ∷ 0 ∷ 0 ∷ 0 ∷ 0 ∷ 0 ∷ 2 ∷ 0 ∷ 0 ∷ 0 ∷ 1 ∷ 0 ∷ 1 ∷ 0 ∷ 10 ∷ 0 ∷ 0 ∷ 0 ∷ 1 ∷ 0 ∷ 4 ∷ 1
    ∷ 0 ∷ 0xc0 ∷ 0 ∷ 0 ∷ 0 ∷ 0 ∷ 0 ∷ 0 ∷ []

body-written :
    write (full_message frame event_transport none header {D = Data (Unit {0})} body none) []
    ≡ ok (tt, bytes)
unfolding write write_headers write_message fatal_on_error align encode_sbe is_single_message
    encode_frame_header encode_transport_header Header.encode ControlRequest.encode write_uint
    write_var
body-written = refl

body-Sound : Sound frame event_transport none header body
unfolding after_frame_layout request_response_layout HeaderLaws.layout sbe_layout
    ControlRequestLaws.layout uint_bytes
body-Sound = record {
  frame_fits = omega arith;
  header_fits = omega arith;
  announced = refl;
  counted = refl;
}

abbrev client : Client
client = record {
  connection = bytes ∷ [];
  transactions = λ _. nil_channel;
  subscriptions = λ _. nil_channel;
}

receive-unknown_example :
    receive unmarshal client ≡ (crashed nil_pointer, record client { connection = [] })
receive-unknown_example =
    receive-unknown unmarshal frame event_transport header body none bytes client []
      (record {
        no_request = omega arith;
        no_response = omega arith;
        no_control = omega arith;
        no_event = omega arith;
      })
      body-Sound (omega arith) body-written (omega arith) refl
