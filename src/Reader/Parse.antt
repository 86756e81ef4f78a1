-- ===== src/Reader/Parse.antt =====
-- zbc/reader.go: ParseMessage. The MessagePack library is its function `unmarshal`, which fails by
-- `none`.
use zbc_go.Common.{true, Option, none, some, [], ◌==◌, if◌then◌else◌}
use zbc_go.Wire.{Bytes, Outcome, ok, err, message_pack, little_endian}
use zbc_go.Wire.Outcomes.{◌>>=◌, decode_from, deref}
use zbc_go.Sbe.MessageHeader.{MessageHeader}
use zbc_go.Sbe.ExecuteCommandRequest as CommandRequest
use zbc_go.Sbe.ExecuteCommandRequest.{ExecuteCommandRequest}
use zbc_go.Sbe.ExecuteCommandResponse as CommandResponse
use zbc_go.Sbe.ExecuteCommandResponse.{ExecuteCommandResponse}
use zbc_go.Sbe.ControlMessageResponse as ControlResponse
use zbc_go.Sbe.ControlMessageResponse.{ControlMessageResponse}
use zbc_go.Sbe.SubscribedEvent as Event
use zbc_go.Sbe.SubscribedEvent.{SubscribedEvent}
use zbc_go.Message.{Headers, Message, Sbe, command_request, command_response, control_response}
use zbc_go.Message.{subscribed_event, no_message, set_headers, set_sbe_message, set_data}
use zbc_go.Message.{template_id_execute_command_request, template_id_execute_command_response}
use zbc_go.Message.{template_id_control_message_response, template_id_subscription_event}

-- `var commandRequest sbe.ExecuteCommandRequest`, and so on.
abbrev pub zero_request : ExecuteCommandRequest
zero_request = record {
  partition_id = 0;
  position = 0;
  key = 0;
  event_type = 0;
  topic_name = [];
  command = [];
}

abbrev pub zero_response : ExecuteCommandResponse
zero_response = record { partition_id = 0; position = 0; key = 0; topic_name = []; event = [] }

abbrev pub zero_control_response : ControlMessageResponse
zero_control_response = record { data_bytes = [] }

abbrev pub zero_event : SubscribedEvent
zero_event = record {
  partition_id = 0;
  position = 0;
  key = 0;
  subscriber_key = 0;
  subscription_type = 0;
  event_type = 0;
  topic_name = [];
  event = [];
}

unfoldable pub decode_cmd_request : Bytes → MessageHeader → Outcome ExecuteCommandRequest
decode_cmd_request reader header =
    decode_from
      (CommandRequest.decode zero_request little_endian header.version header.block_length true)
      reader

unfoldable pub decode_cmd_response : Bytes → MessageHeader → Outcome ExecuteCommandResponse
decode_cmd_response reader header =
    decode_from
      (CommandResponse.decode zero_response little_endian header.version header.block_length true)
      reader

unfoldable pub decode_ctl_response : Bytes → MessageHeader → Outcome ControlMessageResponse
decode_ctl_response reader header =
    decode_from
      (ControlResponse.decode zero_control_response little_endian header.version header.block_length
        true)
      reader

unfoldable pub decode_sub_event : Bytes → MessageHeader → Outcome SubscribedEvent
decode_sub_event reader header =
    decode_from (Event.decode zero_event little_endian header.version header.block_length true)
      reader

module _ {D : Type 0} (unmarshal : Bytes → Option D) where
  unfoldable pub parse_message_pack : Bytes → Outcome D
  parse_message_pack bs = elim (unmarshal bs) [ none ↦ err message_pack | some d ↦ ok d ]

  -- One case of the switch: the message with its SBE part, and the MessagePack data in it.
  unfoldable pub with_parts : Message D → Sbe → Bytes → Outcome (Message D)
  unfolding parse_message_pack
  with_parts msg sbe bs = do
    item ← parse_message_pack bs
    ok (set_data (some item) (set_sbe_message sbe msg))

  -- The switch on the template id. An id that has no case leaves the message without parts.
  unfoldable pub parse_parts : Message D → MessageHeader → Bytes → Outcome (Message D)
  unfolding with_parts
  parse_parts msg header reader =
      if header.template_id == template_id_execute_command_request
      then (do e ← decode_cmd_request reader header; with_parts msg (command_request e) e.command)
      else if header.template_id == template_id_execute_command_response
      then (do e ← decode_cmd_response reader header; with_parts msg (command_response e) e.event)
      else if header.template_id == template_id_control_message_response
      then (do
        c ← decode_ctl_response reader header
        with_parts msg (control_response c) c.data_bytes)
      else if header.template_id == template_id_subscription_event
      then (do s ← decode_sub_event reader header; with_parts msg (subscribed_event s) s.event)
      else ok msg

  unfoldable pub parse_message : Option Headers → Bytes → Outcome (Message D)
  unfolding parse_parts
  parse_message headers message = do
    h ← deref headers
    header ← deref h.sbe_message_header
    parse_parts (set_headers headers no_message) header message
