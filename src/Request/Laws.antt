-- ===== src/Request/Laws.antt =====
-- The frame length that the constructors compute, and what the writer makes of their messages.
use zbc_go.Common.{ℕ, ◌+◌, ◌^◌, ◌<◌, ◌≡◌, refl, arith, Option, none, some, length, length-append}
use zbc_go.Wire.{Bytes, little_endian, uint_bytes}
use zbc_go.Wire.Integers.{length-uint_bytes}
use zbc_go.Protocol.{FrameHeader, TransportHeader, RequestResponseHeader, new_frame_header}
use zbc_go.Protocol.{new_transport_header, new_request_response_header}
use zbc_go.Sbe.MessageHeader.{MessageHeader}
use zbc_go.Sbe.MessageHeader.Laws as Header
use zbc_go.Sbe.ExecuteCommandRequest.{ExecuteCommandRequest}
use zbc_go.Sbe.ExecuteCommandRequest as CommandRequest
use zbc_go.Sbe.ExecuteCommandRequest.Laws as CommandRequestLaws
use zbc_go.Sbe.ControlMessageRequest.{ControlMessageRequest}
use zbc_go.Sbe.ControlMessageRequest as ControlRequest
use zbc_go.Sbe.ControlMessageRequest.Laws as ControlRequestLaws
use zbc_go.Sbe.Field.{MessageSpec}
use zbc_go.Sbe.Field.Streams.{var_bytes}
use zbc_go.Message.{Message, Sbe, command_request, control_request}
use zbc_go.Writer.Laws.{full_message, sbe_layout, after_frame_layout, request_response_layout}
use zbc_go.Reader.RoundTrip.{Sound}
use zbc_go.Reader.Sections.{length-header}
use zbc_go.Request.{Command, TaskSubscription, subscription_command, sbe_header, request_headers}
use zbc_go.Request.{command_frame_length, subscription_frame_length, new_command_request_message}
use zbc_go.Request.{new_task_subscription_message}

abbrev pub request_frame : ℕ → FrameHeader
request_frame size = new_frame_header size 0 0 0 2

abbrev pub request_transport : TransportHeader
request_transport = new_transport_header 0

abbrev pub request_pair : ℕ → Option RequestResponseHeader
request_pair drawn = some (new_request_response_header drawn)

-- A request as its constructor sets it: `size` is the frame length, and `drawn` the request id.
abbrev pub request_message : {D : Type 0} → ℕ → MessageSpec → ℕ → Sbe → Message D
request_message drawn spec size sbe =
    full_message (request_frame size) request_transport (request_pair drawn) (sbe_header spec) sbe
      none

abbrev pub SoundRequest : ℕ → MessageSpec → ℕ → Sbe → Type 0
SoundRequest drawn spec size sbe =
    Sound (request_frame size) request_transport (request_pair drawn) (sbe_header spec) sbe

length-request_headers :
    (drawn : ℕ) (m : MessageHeader) (f : FrameHeader)
    → length (after_frame_layout f request_transport (request_pair drawn) m) ≡ 18
unfolding after_frame_layout request_response_layout new_transport_header
    new_request_response_header
length-request_headers drawn m f =
    omega (arith, length-append {0}, length-uint_bytes, length-header m)

length-command_layout :
    (e : ExecuteCommandRequest)
    → length (sbe_layout (command_request e)) ≡ 23 + length e.topic_name + length e.command
unfolding sbe_layout CommandRequestLaws.layout uint_bytes
length-command_layout e =
    omega (arith, length-append e.topic_name (var_bytes little_endian e.command))

length-control_layout :
    (c : ControlMessageRequest) → length (sbe_layout (control_request c)) ≡ 3 + length c.data_bytes
unfolding sbe_layout ControlRequestLaws.layout uint_bytes
length-control_layout c = omega arith

command_frame_length-eq :
    (e : ExecuteCommandRequest)
    → CommandRequestLaws.Fits e
    → command_frame_length e ≡ 41 + length e.topic_name + length e.command
unfolding command_frame_length
command_frame_length-eq e fits = omega arith

subscription_frame_length-eq :
    (c : ControlMessageRequest)
    → ControlRequestLaws.Fits c
    → subscription_frame_length c ≡ 21 + length c.data_bytes
unfolding subscription_frame_length
subscription_frame_length-eq c fits = omega arith

request-Sound :
    (drawn : ℕ) (spec : MessageSpec) (size : ℕ) (sbe : Sbe)
    → Header.Fits (sbe_header spec)
    → drawn < 2 ^ 64
    → size < 2 ^ 32
    → size ≡ 18 + length (sbe_layout sbe)
    → SoundRequest drawn spec size sbe
unfolding new_frame_header new_transport_header new_request_response_header
request-Sound drawn spec size sbe header small fits counted = record {
  frame_fits = record {
    frame_length_fits = fits;
    version_fits = omega arith;
    flags_fits = omega arith;
    type_id_fits = omega arith;
    stream_id_fits = omega arith;
  };
  header_fits = header;
  announced = (refl, small);
  counted =
      let front =
        after_frame_layout (request_frame size) request_transport (request_pair drawn)
          (sbe_header spec) in
      omega (
        arith,
        counted,
        length-append front (sbe_layout sbe),
        length-request_headers drawn (sbe_header spec) (request_frame size),
      );
}

command_header-Fits : Header.Fits (sbe_header CommandRequest.message_spec)
unfolding sbe_header
command_header-Fits = record {
  block_length_fits = omega arith;
  template_id_fits = omega arith;
  schema_id_fits = omega arith;
  version_fits = omega arith;
}

control_header-Fits : Header.Fits (sbe_header ControlRequest.message_spec)
unfolding sbe_header
control_header-Fits = record {
  block_length_fits = omega arith;
  template_id_fits = omega arith;
  schema_id_fits = omega arith;
  version_fits = omega arith;
}

module _ {X : Type 0} (marshal : Command X → Option Bytes) (drawn : ℕ) where
  -- Where the command is serialised as `b`, NewCommandRequestMessage stores `b` in the request and
  -- returns a request message with it, whose frame length is the number of bytes that the writer puts
  -- between the frame header and the padding; the fields of the request and the id that is drawn fit
  -- their Go types.
  pub new_command_request_message-eq :
      (e : ExecuteCommandRequest) (command : Command X) (b : Bytes)
      → marshal command ≡ some b
      → CommandRequestLaws.Fits (record e { command = b })
      → drawn < 2 ^ 64
      → (size : ℕ) × (new_command_request_message marshal drawn e command ≡ (
        some (
            request_message drawn CommandRequest.message_spec size
              (command_request (record e { command = b }))),
        record e { command = b },
      ))
        × SoundRequest drawn CommandRequest.message_spec size
            (command_request (record e { command = b }))
  unfolding new_command_request_message request_headers
  new_command_request_message-eq e command b known fits small =
      let e' : ExecuteCommandRequest = record e { command = b } in
      let size = command_frame_length e' in
      let counted = command_frame_length-eq e' fits in
      (
        size,
        rw (new_command_request_message, known),
        request-Sound drawn CommandRequest.message_spec size (command_request e')
            command_header-Fits small
            (omega (arith, counted, fits.topic_name_fits, fits.command_fits))
            (omega (arith, counted, length-command_layout e')),
      )

  -- Where the subscription is serialised as `b`, NewTaskSubscriptionMessage returns the request
  -- ADD_TASK_SUBSCRIPTION with it, whose frame length is the number of bytes that the writer puts
  -- between the frame header and the padding; `b` is shorter than 2 ^ 16 bytes, and the id that is
  -- drawn fits its Go type.
  pub new_task_subscription_message-eq :
      (ts : TaskSubscription) (b : Bytes)
      → marshal (subscription_command ts) ≡ some b
      → length b < 2 ^ 16
      → drawn < 2 ^ 64
      → (size : ℕ) × (new_task_subscription_message marshal drawn ts
          ≡ some (
              request_message drawn ControlRequest.message_spec size
                (control_request (record { message_type = 0; data_bytes = b }))))
        × SoundRequest drawn ControlRequest.message_spec size
            (control_request (record { message_type = 0; data_bytes = b }))
  unfolding new_task_subscription_message request_headers
  new_task_subscription_message-eq ts b known fits small =
      let c : ControlMessageRequest = record { message_type = 0; data_bytes = b } in
      let size = subscription_frame_length c in
      let counted =
        subscription_frame_length-eq c
          (record { message_type_fits = omega arith; data_bytes_fits = fits }) in
      (
        size,
        rw (new_task_subscription_message, known),
        request-Sound drawn ControlRequest.message_spec size (control_request c) control_header-Fits
            small (omega (arith, counted, fits)) (omega (arith, counted, length-control_layout c)),
      )
