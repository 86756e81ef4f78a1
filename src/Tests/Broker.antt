-- ===== src/Tests/Broker.antt =====
-- What a broker sends in the tests: a response and an event, in their frames.
use zbc_go.Common.{◌≡◌, refl, arith, Option, none, some, [], ◌∷◌, ◌==◌, if◌then◌else◌}
use zbc_go.Wire.{Bytes, ok, write_uint, uint_bytes}
use zbc_go.Protocol.{FrameHeader, TransportHeader, RequestResponseHeader}
use zbc_go.Protocol.{encode_frame_header, encode_transport_header, encode_request_response_header}
use zbc_go.Sbe.Field.{write_var, extension, check_field, check_utf8, check_enum}
use zbc_go.Sbe.MessageHeader.{MessageHeader}
use zbc_go.Sbe.MessageHeader as Header
use zbc_go.Sbe.ExecuteCommandResponse as Response
use zbc_go.Sbe.SubscribedEvent as Event
use zbc_go.Sbe.SubscribedEvent.{SubscribedEvent}
use zbc_go.Message.{Sbe, command_response, subscribed_event, encode_sbe, is_single_message}
use zbc_go.Writer.{write, write_headers, write_message, fatal_on_error, align}
use zbc_go.Writer.Laws.{full_message, sbe_layout, after_frame_layout, request_response_layout}
use zbc_go.Sbe.MessageHeader.Laws as HeaderLaws
use zbc_go.Sbe.ExecuteCommandResponse.Laws as ResponseLaws
use zbc_go.Sbe.SubscribedEvent.Laws as EventLaws
use zbc_go.Request.Values.{Data, nil_data}
use zbc_go.Reader.Messages.{Announced}
use zbc_go.Reader.RoundTrip.{Sound}
use zbc_go.Client.Delivery.{Sent}

-- A MessagePack library that reads one document, the nil map.
unfoldable pub unmarshal : Bytes → Option (Data (Unit {0}))
unmarshal [] = none
unmarshal (b ∷ bs) = if b == 0xc0 then some nil_data else none

abbrev pub frame : FrameHeader
frame = record { frame_length = 43; version = 0; flags = 0; type_id = 0; stream_id = 2 }

abbrev pub transport : TransportHeader
transport = record { protocol_id = 0 }

abbrev pub request_id : RequestResponseHeader
request_id = record { request_id = 77 }

abbrev pub header : MessageHeader
header = record { block_length = 18; template_id = 21; schema_id = 0; version = 1 }

abbrev pub response : Sbe
response = command_response (record {
  partition_id = 1;
  position = 258;
  key = 7;
  topic_name = b'h' ∷ b'i' ∷ [];
  event = 0xc0 ∷ [];
})

abbrev pub frame_bytes : Bytes
frame_bytes = 43 ∷ 0 ∷ 0 ∷ 0 ∷ 0 ∷ 0 ∷ 0 ∷ 0 ∷ 2 ∷ 0 ∷ 0 ∷ 0 ∷ []

abbrev pub response_bytes : Bytes
response_bytes =
    43 ∷ 0 ∷ 0 ∷ 0 ∷ 0 ∷ 0 ∷ 0 ∷ 0 ∷ 2 ∷ 0 ∷ 0 ∷ 0 ∷ 0 ∷ 0 ∷ 77 ∷ 0 ∷ 0 ∷ 0 ∷ 0 ∷ 0 ∷ 0 ∷ 0 ∷ 18 ∷ 0
    ∷ 21 ∷ 0 ∷ 0 ∷ 0 ∷ 1 ∷ 0 ∷ 1 ∷ 0 ∷ 2 ∷ 1 ∷ 0 ∷ 0 ∷ 0 ∷ 0 ∷ 0 ∷ 0 ∷ 7 ∷ 0 ∷ 0 ∷ 0 ∷ 0 ∷ 0 ∷ 0 ∷ 0
    ∷ 2 ∷ 0 ∷ b'h' ∷ b'i' ∷ 1 ∷ 0 ∷ 0xc0 ∷ 0 ∷ []

abbrev pub event_frame : FrameHeader
event_frame = record { frame_length = 45; version = 0; flags = 0; type_id = 0; stream_id = 2 }

abbrev pub event_transport : TransportHeader
event_transport = record { protocol_id = 1 }

abbrev pub event_header : MessageHeader
event_header = record { block_length = 28; template_id = 30; schema_id = 0; version = 1 }

abbrev pub event : SubscribedEvent
event = record {
  partition_id = 1;
  position = 258;
  key = 7;
  subscriber_key = 5;
  subscription_type = 0;
  event_type = 0;
  topic_name = b'h' ∷ b'i' ∷ [];
  event = 0xc0 ∷ [];
}

abbrev pub event_bytes : Bytes
event_bytes =
    45 ∷ 0 ∷ 0 ∷ 0 ∷ 0 ∷ 0 ∷ 0 ∷ 0 ∷ 2 ∷ 0 ∷ 0 ∷ 0 ∷ 1 ∷ 0 ∷ 28 ∷ 0 ∷ 30 ∷ 0 ∷ 0 ∷ 0 ∷ 1 ∷ 0 ∷ 1 ∷ 0
    ∷ 2 ∷ 1 ∷ 0 ∷ 0 ∷ 0 ∷ 0 ∷ 0 ∷ 0 ∷ 7 ∷ 0 ∷ 0 ∷ 0 ∷ 0 ∷ 0 ∷ 0 ∷ 0 ∷ 5 ∷ 0 ∷ 0 ∷ 0 ∷ 0 ∷ 0 ∷ 0 ∷ 0
    ∷ 0 ∷ 0 ∷ 2 ∷ 0 ∷ b'h' ∷ b'i' ∷ 1 ∷ 0 ∷ 0xc0 ∷ 0 ∷ 0 ∷ 0 ∷ 0 ∷ 0 ∷ 0 ∷ 0 ∷ []

pub response-written :
    (d : Option (Data (Unit {0})))
    → write
        (full_message frame transport (some request_id) header {D = Data (Unit {0})} response d)
        []
      ≡ ok (tt, response_bytes)
unfolding write write_headers write_message fatal_on_error align encode_sbe is_single_message
    encode_frame_header encode_transport_header encode_request_response_header Header.encode
    Response.encode write_uint write_var
response-written d = refl

pub event-written :
    (d : Option (Data (Unit {0})))
    → write
        (full_message event_frame event_transport none event_header {D = Data (Unit {0})}
          (subscribed_event event)
          d)
        []
      ≡ ok (tt, event_bytes)
unfolding write write_headers write_message fatal_on_error align encode_sbe is_single_message
    encode_frame_header encode_transport_header Header.encode Event.encode write_uint write_var
event-written d = refl

pub response-Sound : Sound frame transport (some request_id) header response
unfolding after_frame_layout request_response_layout HeaderLaws.layout sbe_layout
    ResponseLaws.layout uint_bytes
response-Sound = record {
  frame_fits = omega arith;
  header_fits = omega arith;
  announced = (refl, omega arith);
  counted = refl;
}

pub event-Sound : Sound event_frame event_transport none event_header (subscribed_event event)
unfolding after_frame_layout request_response_layout HeaderLaws.layout sbe_layout EventLaws.layout
    uint_bytes
event-Sound = record {
  frame_fits = omega arith;
  header_fits = omega arith;
  announced = refl;
  counted = refl;
}

pub response-Announced : Announced header response
unfolding Response.range_check check_field check_utf8 extension
response-Announced = (refl, refl, refl)

pub event-Announced : Announced event_header (subscribed_event event)
unfolding Event.range_check check_field check_utf8 check_enum extension
event-Announced = (refl, refl, refl)

pub response-Sent :
    Sent unmarshal frame transport header (some request_id) response nil_data response_bytes
unfolding unmarshal
response-Sent = record {
  sound = response-Sound;
  fits = omega arith;
  announced = response-Announced;
  known = refl;
  written = response-written (some nil_data);
  small = omega arith;
}

pub event-Sent :
    Sent unmarshal event_frame event_transport event_header none
      (subscribed_event event)
      nil_data
      event_bytes
unfolding unmarshal
event-Sent = record {
  sound = event-Sound;
  fits = omega arith;
  announced = event-Announced;
  known = refl;
  written = event-written (some nil_data);
  small = omega arith;
}
