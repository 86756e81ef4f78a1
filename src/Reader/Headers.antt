-- ===== src/Reader/Headers.antt =====
-- zbc/reader.go: readNext, the header readers and ReadHeaders. A nil slice is the empty list.
use zbc_go.Common.{ℕ, ◌+◌, Bool, true, false, not, ◌||◌, Option, none, some, []}
use zbc_go.Common.{◌==◌, if◌then◌else◌, length}
use zbc_go.Wire.{Bytes, Outcome, ok, err, panic, little_endian, frame_header_read}
use zbc_go.Wire.{frame_header_decode, protocol_id_not_found}
use zbc_go.Wire.Outcomes.{◌>>=◌, decode_from}
use zbc_go.Protocol.{FrameHeader, TransportHeader, RequestResponseHeader, request_response}
use zbc_go.Protocol.{full_duplex_single_message, decode_frame_header, decode_transport_header}
use zbc_go.Protocol.{decode_request_response_header}
use zbc_go.Sbe.MessageHeader.{MessageHeader}
use zbc_go.Sbe.MessageHeader as Header
use zbc_go.Message.{Headers, no_headers, set_frame_header, set_transport_header}
use zbc_go.Message.{set_request_response_header, set_sbe_message_header, frame_header_size}
use zbc_go.Message.{transport_header_size, request_response_header_size, sbe_message_header_size}
use zbc_go.Reader.Buffer.{BufReader, Answer, buf_read, slice, slice_from}

abbrev is_some : {A : Type 0} → Option A → Bool
is_some none = false
is_some (some _) = true

unfoldable pub read_next : ℕ → BufReader → Answer BufReader
read_next n r =
    let ((bs, e), r') = buf_read n r in
    if not (length bs == n) || is_some e then (([], e), r') else ((bs, none), r')

unfoldable pub read_frame_header : Bytes → Outcome FrameHeader
read_frame_header bs = elim (decode_frame_header little_endian bs) [
  | ok (h, _) ↦ ok h
  | err _ ↦ err frame_header_decode
  | panic p ↦ panic p
]

unfoldable pub read_transport_header : Bytes → Outcome TransportHeader
read_transport_header bs = do
  transport ← decode_from (decode_transport_header little_endian) bs
  if transport.protocol_id == request_response
        || transport.protocol_id == full_duplex_single_message
      then ok transport
      else err protocol_id_not_found

unfoldable pub read_request_response_header : Bytes → Outcome RequestResponseHeader
read_request_response_header bs = decode_from (decode_request_response_header little_endian) bs

unfoldable pub read_sbe_message_header : Bytes → Outcome MessageHeader
read_sbe_message_header bs = decode_from (Header.decode little_endian 0) bs

-- What ReadHeaders returns; `none` is (nil, nil, nil).
abbrev pub Found : Type 0
Found = Option (Headers × Bytes)

-- The end of ReadHeaders: the SBE header at `sbe_index`, and the body behind it.
unfoldable pub read_sbe_part : Headers → ℕ → Bytes → Outcome Found
read_sbe_part header sbe_index message = do
  bytes ← slice sbe_index (sbe_index + sbe_message_header_size) message
  sbe_header ← read_sbe_message_header bytes
  body ← slice_from (sbe_index + 8) message
  ok (some (set_sbe_message_header (some sbe_header) header, body))

-- The case RequestResponse of the switch. On an error ReadHeaders returns the outer `err`, which
-- is nil there.
unfoldable pub read_request_response_part : Headers → Bytes → Outcome Found
unfolding read_sbe_part
read_request_response_part header message = do
  bytes ← slice transport_header_size (transport_header_size + request_response_header_size) message
  elim (read_request_response_header bytes) [
    | ok h ↦
        read_sbe_part (set_request_response_header (some h) header)
          (transport_header_size + request_response_header_size) message
    | err _ ↦ ok none
    | panic p ↦ panic p
  ]

-- ReadHeaders from the transport header on, on the bytes that the frame header announced.
unfoldable pub read_message_headers : FrameHeader → Bytes → Outcome Found
unfolding read_request_response_part
read_message_headers frame message = do
  front ← slice 0 transport_header_size message
  transport ← read_transport_header front
  let header = set_transport_header (some transport) (set_frame_header (some frame) no_headers)
  if transport.protocol_id == request_response
      then read_request_response_part header message
      else if transport.protocol_id == full_duplex_single_message
      then read_sbe_part (set_request_response_header none header) transport_header_size message
      else read_sbe_part header transport_header_size message

-- ReadHeaders from the second readNext on.
unfoldable pub read_message : FrameHeader → BufReader → Outcome Found × BufReader
unfolding read_message_headers
read_message frame r =
    let ((message, e), r') = read_next frame.frame_length r in
    elim e [ some x ↦ (err x, r') | none ↦ (read_message_headers frame message, r') ]

-- ReadHeaders from the decoding of the frame header on.
unfoldable pub read_frame : Bytes → BufReader → Outcome Found × BufReader
unfolding read_message
read_frame header_bytes r = elim (read_frame_header header_bytes) [
  | ok frame ↦ read_message frame r
  | err x ↦ (err x, r)
  | panic p ↦ (panic p, r)
]

unfoldable pub read_headers : BufReader → Outcome Found × BufReader
unfolding read_frame
read_headers r =
    let ((header_bytes, e), r') = read_next frame_header_size r in
    elim e [ some _ ↦ (err frame_header_read, r') | none ↦ read_frame header_bytes r' ]
