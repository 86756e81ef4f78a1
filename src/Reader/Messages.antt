-- ===== src/Reader/Messages.antt =====
-- ParseMessage on the SBE messages that a broker sends, as MessageWriter lays them out.
use zbc_go.Common.{◌≡◌, refl, sym, true, Option, none, some, [], ◌++◌}
use zbc_go.Wire.{Bytes, ok, err, message_pack, little_endian}
use zbc_go.Wire.Outcomes.{◌>>=◌}
use zbc_go.Reader.Laws.{decode_from-Reads}
use zbc_go.Sbe.Field.{extension}
use zbc_go.Sbe.MessageHeader.{MessageHeader}
use zbc_go.Sbe.ExecuteCommandResponse as CommandResponse
use zbc_go.Sbe.ExecuteCommandResponse.Laws.{ExecuteCommandResponse-decode-layout}
use zbc_go.Sbe.ControlMessageResponse as ControlResponse
use zbc_go.Sbe.ControlMessageResponse.Laws.{ControlMessageResponse-decode-layout}
use zbc_go.Sbe.SubscribedEvent as Event
use zbc_go.Sbe.SubscribedEvent.Laws.{SubscribedEvent-decode-layout}
use zbc_go.Message.{Headers, Message, Sbe, command_request, command_response, control_request}
use zbc_go.Message.{
  control_response, subscribed_event, set_headers, set_sbe_message_header, no_message,
}
use zbc_go.Writer.Laws.{SbeFits, sbe_layout}
use zbc_go.Reader.Parse.{parse_message, parse_parts, with_parts, parse_message_pack}
use zbc_go.Reader.Parse.{decode_cmd_response, decode_ctl_response, decode_sub_event}
use zbc_go.Reader.Parse.{zero_response, zero_control_response, zero_event}

-- The header of a message that a broker sends: its template id, a block without fields of a newer
-- schema, and values that the range check knows.
abbrev pub Announced : MessageHeader → Sbe → Type 0
Announced m (command_request e) = ⊥
Announced m (command_response e) =
    (m.template_id ≡ 21)
    × (extension CommandResponse.message_spec m.version m.block_length ≡ 0)
    × (CommandResponse.range_check e m.version 1 ≡ ok tt)
Announced m (control_request c) = ⊥
Announced m (control_response c) =
    (m.template_id ≡ 11)
    × (extension ControlResponse.message_spec m.version m.block_length ≡ 0)
    × (ControlResponse.range_check c m.version 1 ≡ ok tt)
Announced m (subscribed_event s) =
    (m.template_id ≡ 30)
    × (extension Event.message_spec m.version m.block_length ≡ 0)
    × (Event.range_check s m.version 1 ≡ ok tt)

-- The MessagePack document in a message.
abbrev pub document : Sbe → Bytes
document (command_request e) = e.command
document (command_response e) = e.event
document (control_request c) = c.data_bytes
document (control_response c) = c.data_bytes
document (subscribed_event s) = s.event

module _ {D : Type 0} (unmarshal : Bytes → Option D) (h : Headers) (m : MessageHeader)
    (rest : Bytes) where
  parse_parts-layout :
      (msg : Message D) (sbe : Sbe)
      → SbeFits sbe
      → Announced m sbe
      → parse_parts unmarshal msg m (sbe_layout sbe ++ rest)
        ≡ with_parts unmarshal msg sbe (document sbe)
  unfolding parse_parts sbe_layout decode_cmd_response decode_ctl_response decode_sub_event
  parse_parts-layout msg (command_request e) fits (absurd_header) = absurd absurd_header
  parse_parts-layout msg (command_response e) fits (id, same, passed) =
      let got = decode_from-Reads rest (
        ExecuteCommandResponse-decode-layout zero_response little_endian m.version m.block_length
          true e [] fits (λ _. passed) (sym same)) in
      rw (id, got, ◌>>=◌) refl
  parse_parts-layout msg (control_request c) fits (absurd_header) = absurd absurd_header
  parse_parts-layout msg (control_response c) fits (id, same, passed) =
      let got = decode_from-Reads rest (
        ControlMessageResponse-decode-layout zero_control_response little_endian m.version
          m.block_length true c [] fits (λ _. passed) (sym same)) in
      rw (id, got, ◌>>=◌) refl
  parse_parts-layout msg (subscribed_event s) fits (id, same, passed) =
      let got = decode_from-Reads rest (
        SubscribedEvent-decode-layout zero_event little_endian m.version m.block_length true s []
          fits (λ _. passed) (sym same)) in
      rw (id, got, ◌>>=◌) refl

  -- ParseMessage gives the message with its headers, its SBE part and its data, for a response or an
  -- event whose fields fit their Go types, whose header announces it, and whose document the
  -- MessagePack library reads.
  pub parse_message-layout :
      (sbe : Sbe) (d : D)
      → SbeFits sbe
      → Announced m sbe
      → unmarshal (document sbe) ≡ some d
      → parse_message unmarshal (some (set_sbe_message_header (some m) h)) (sbe_layout sbe ++ rest)
        ≡ ok (record {
          headers = some (set_sbe_message_header (some m) h);
          sbe_message = some sbe;
          payload = some d;
        })
  unfolding parse_message with_parts parse_message_pack
  parse_message-layout sbe d fits announced known =
      rw
        (
          parse_parts-layout (set_headers (some (set_sbe_message_header (some m) h)) no_message) sbe
              fits announced,
          known,
          ◌>>=◌,
        )
        refl

  -- ParseMessage fails on such a message if the MessagePack library does not read its document.
  pub parse_message-unreadable :
      (sbe : Sbe)
      → SbeFits sbe
      → Announced m sbe
      → unmarshal (document sbe) ≡ none
      → parse_message unmarshal (some (set_sbe_message_header (some m) h)) (sbe_layout sbe ++ rest)
        ≡ err message_pack
  unfolding parse_message with_parts parse_message_pack
  parse_message-unreadable sbe fits announced unknown =
      rw
        (
          parse_parts-layout (set_headers (some (set_sbe_message_header (some m) h)) no_message) sbe
              fits announced,
          unknown,
          ◌>>=◌,
        )
        refl
