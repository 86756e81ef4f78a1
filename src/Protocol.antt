-- ===== src/Protocol.antt =====
-- zbc/protocol: the headers in front of an SBE message.
pub mod Laws
use zbc_go.Common.{ℕ, ◌+◌}
use zbc_go.Wire.{Stream, ◌>>=◌, ◌>>◌, return, ByteOrder, little_endian, write_uint, read_uint}
use zbc_go.Wire.{read_struct}

-- transport_header.go
abbrev pub request_response : ℕ
request_response = 0

abbrev pub full_duplex_single_message : ℕ
full_duplex_single_message = 1

-- frame_header.go
abbrev pub frame_type_message : ℕ
frame_type_message = 0

abbrev pub control_close : ℕ
control_close = 100 + 1

abbrev pub control_end_of_stream : ℕ
control_end_of_stream = 100 + 2

abbrev pub control_keep_alive : ℕ
control_keep_alive = 100 + 3

abbrev pub protocol_control_frame : ℕ
protocol_control_frame = 100 + 4

pub record FrameHeader : Type 0 where
  pub frame_length : ℕ
  pub version : ℕ
  pub flags : ℕ
  pub type_id : ℕ
  pub stream_id : ℕ

pub record TransportHeader : Type 0 where
  pub protocol_id : ℕ

pub record RequestResponseHeader : Type 0 where
  pub request_id : ℕ

-- The argument order is that of NewFrameHeader.
unfoldable pub new_frame_header : ℕ → ℕ → ℕ → ℕ → ℕ → FrameHeader
new_frame_header frame_length version flags type_id stream_id = record {
  frame_length = frame_length;
  version = version;
  flags = flags;
  type_id = type_id;
  stream_id = stream_id;
}

unfoldable pub new_transport_header : ℕ → TransportHeader
new_transport_header pid = record { protocol_id = pid }

-- The argument is what the random source of NewRequestResponseHeader draws.
unfoldable pub new_request_response_header : ℕ → RequestResponseHeader
new_request_response_header drawn = record { request_id = drawn }

-- binary.Write of a struct writes its fields in order; Encode is always little-endian.
unfoldable pub encode_frame_header : FrameHeader → Stream (Unit {0})
encode_frame_header fh = do
  write_uint little_endian 4 fh.frame_length
  write_uint little_endian 1 fh.version
  write_uint little_endian 1 fh.flags
  write_uint little_endian 2 fh.type_id
  write_uint little_endian 4 fh.stream_id

unfoldable pub frame_header_fields : ByteOrder → Stream FrameHeader
frame_header_fields order = do
  frame_length ← read_uint order 4
  version ← read_uint order 1
  flags ← read_uint order 1
  type_id ← read_uint order 2
  stream_id ← read_uint order 4
  return (record {
    frame_length = frame_length;
    version = version;
    flags = flags;
    type_id = type_id;
    stream_id = stream_id;
  })

unfoldable pub decode_frame_header : ByteOrder → Stream FrameHeader
unfolding frame_header_fields
decode_frame_header order = read_struct 12 (frame_header_fields order)

unfoldable pub encode_transport_header : TransportHeader → Stream (Unit {0})
encode_transport_header fh = write_uint little_endian 2 fh.protocol_id

unfoldable pub decode_transport_header : ByteOrder → Stream TransportHeader
decode_transport_header order = do
  protocol_id ← read_uint order 2
  return (record { protocol_id = protocol_id })

unfoldable pub encode_request_response_header : RequestResponseHeader → Stream (Unit {0})
encode_request_response_header fh = write_uint little_endian 8 fh.request_id

unfoldable pub decode_request_response_header : ByteOrder → Stream RequestResponseHeader
decode_request_response_header order = do
  request_id ← read_uint order 8
  return (record { request_id = request_id })
