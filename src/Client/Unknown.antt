-- ===== src/Client/Unknown.antt =====
-- Messages of a template that ParseMessage has no case for.
use zbc_go.Common.{◌≤◌, ◌≡◌, ◌≢◌, refl, ne→==, Option, none, some, [], ◌∷◌, length}
use zbc_go.Wire.{Bytes, ok, nil_pointer}
use zbc_go.Protocol.{FrameHeader, TransportHeader}
use zbc_go.Sbe.MessageHeader.{MessageHeader}
use zbc_go.Message.{Headers, Message, Sbe, set_headers, no_message, set_sbe_message_header}
use zbc_go.Writer.{write}
use zbc_go.Writer.Laws.{SbeFits, sbe_layout, full_headers, full_message}
use zbc_go.Reader.Buffer.{Connection}
use zbc_go.Reader.RoundTrip.{Sound}
use zbc_go.Reader.Written.{read_headers-write}
use zbc_go.Reader.Parse.{parse_message, parse_parts}
use zbc_go.Request.Values.{Data}
use zbc_go.Request.{as_subscribed_event}
use zbc_go.Client.{Client, crashed, receive, round_found, dispatch, event_round, new_reader_size}

-- No case of ParseMessage has the template id.
pub record IsUnknown (m : MessageHeader) : Type 0 where
  pub no_request : m.template_id ≢ 20
  pub no_response : m.template_id ≢ 21
  pub no_control : m.template_id ≢ 11
  pub no_event : m.template_id ≢ 30

module _ {D : Type 0} (unmarshal : Bytes → Option D) (m : MessageHeader) (unknown : IsUnknown m)
    (bs : Bytes) where
  parse_parts-unknown : (msg : Message D) → parse_parts unmarshal msg m bs ≡ ok msg
  unfolding parse_parts
  parse_parts-unknown msg =
      rw
        (
          ne→== m.template_id 20 unknown.no_request,
          ne→== m.template_id 21 unknown.no_response,
          ne→== m.template_id 11 unknown.no_control,
          ne→== m.template_id 30 unknown.no_event,
        )
        refl

  parse_message-unknown :
      (h : Headers)
      → parse_message unmarshal (some (set_sbe_message_header (some m) h)) bs
        ≡ ok (set_headers (some (set_sbe_message_header (some m) h)) no_message)
  unfolding parse_message
  parse_message-unknown h =
      parse_parts-unknown (set_headers (some (set_sbe_message_header (some m) h)) no_message)

module _ {X : Type 0} (unmarshal : Bytes → Option (Data X)) (f : FrameHeader) (t : TransportHeader)
    (m : MessageHeader) where
  -- A single message of a template that ParseMessage does not know, written in whole and delivered in
  -- one segment of at most 20000 bytes, crashes the receiver, which takes it for an event: it
  -- dereferences the SBE message, which is nil. The message's fields fit, its protocol id is that of a
  -- single message, and its frame header counts its bytes.
  pub receive-unknown :
      (sbe : Sbe) (d : Option (Data X)) (bs : Bytes) (c : Client) (later : Connection)
      → IsUnknown m
      → Sound f t none m sbe
      → SbeFits sbe
      → write (full_message f t none m sbe d) [] ≡ ok (tt, bs)
      → length bs ≤ 20000
      → c.connection ≡ bs ∷ later
      → receive unmarshal c ≡ (crashed nil_pointer, record c { connection = later })
  unfolding receive round_found new_reader_size dispatch event_round as_subscribed_event
  receive-unknown sbe d bs c later unknown sound fits written small arrives =
      let (n, few, read) =
        read_headers-write f t none m sbe d bs 20000 later sound fits written small in
      let parsed =
        parse_message-unknown unmarshal m unknown (sbe_layout sbe) (full_headers f t none m) in
      rw (receive, arrives, read, parsed)
