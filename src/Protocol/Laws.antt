-- ===== src/Protocol/Laws.antt =====
-- The protocol headers through Encode and Decode.
use zbc_go.Common.{◌^◌, ◌<◌, ◌≡◌, ◌++◌, length, length-append, arith}
use zbc_go.Wire.{Bytes, little_endian, uint_bytes}
use zbc_go.Wire.Integers.{length-uint_bytes}
use zbc_go.Wire.Streams.{Reads, Writes, >>=-Reads, >>=-Reads_last, >>-Writes, return-Reads}
use zbc_go.Wire.Streams.{write_uint-Writes, read_uint-Reads}
use zbc_go.Wire.Prefixes.{read_struct-Reads}
use zbc_go.Protocol.{FrameHeader, TransportHeader, RequestResponseHeader, encode_frame_header}
use zbc_go.Protocol.{decode_frame_header}
use zbc_go.Protocol.{decode_transport_header}
use zbc_go.Protocol.{decode_request_response_header}

-- The ranges of the Go types.
pub record FrameFits (h : FrameHeader) : Type 0 where
  pub frame_length_fits : h.frame_length < 2 ^ 32
  pub version_fits : h.version < 2 ^ 8
  pub flags_fits : h.flags < 2 ^ 8
  pub type_id_fits : h.type_id < 2 ^ 16
  pub stream_id_fits : h.stream_id < 2 ^ 32

unfoldable pub frame_layout : FrameHeader → Bytes
frame_layout h =
    uint_bytes little_endian 4 h.frame_length
    ++ (uint_bytes little_endian 1 h.version
        ++ (uint_bytes little_endian 1 h.flags
            ++ (uint_bytes little_endian 2 h.type_id ++ uint_bytes little_endian 4 h.stream_id)))

pub length-frame_layout : (h : FrameHeader) → length (frame_layout h) ≡ 12
unfolding frame_layout
length-frame_layout h = omega (arith, length-append {0}, length-uint_bytes)

pub encode_frame_header-Writes : (h : FrameHeader) → Writes (encode_frame_header h) (frame_layout h)
unfolding encode_frame_header frame_layout
encode_frame_header-Writes h =
    >>-Writes _ _ _ _ (write_uint-Writes little_endian 4 h.frame_length) (
      >>-Writes _ _ _ _ (write_uint-Writes little_endian 1 h.version) (
        >>-Writes _ _ _ _ (write_uint-Writes little_endian 1 h.flags) (
          >>-Writes _ _ _ _ (write_uint-Writes little_endian 2 h.type_id)
            (write_uint-Writes little_endian 4 h.stream_id))))

pub decode_frame_header-Reads :
    (h : FrameHeader) → FrameFits h → Reads (decode_frame_header little_endian) (frame_layout h) h
unfolding decode_frame_header frame_layout
decode_frame_header-Reads h fits = read_struct-Reads 12 (length-frame_layout h) (
    >>=-Reads _ (read_uint-Reads little_endian 4 h.frame_length fits.frame_length_fits) (
      >>=-Reads _ (read_uint-Reads little_endian 1 h.version fits.version_fits) (
        >>=-Reads _ (read_uint-Reads little_endian 1 h.flags fits.flags_fits) (
          >>=-Reads _ (read_uint-Reads little_endian 2 h.type_id fits.type_id_fits) (
            >>=-Reads_last _ (read_uint-Reads little_endian 4 h.stream_id fits.stream_id_fits)
              (return-Reads h))))))

pub decode_transport_header-Reads :
    (h : TransportHeader)
    → h.protocol_id < 2 ^ 16
    → Reads (decode_transport_header little_endian) (uint_bytes little_endian 2 h.protocol_id) h
unfolding decode_transport_header
decode_transport_header-Reads h fits =
    >>=-Reads_last _ (read_uint-Reads little_endian 2 h.protocol_id fits) (return-Reads h)

pub decode_request_response_header-Reads :
    (h : RequestResponseHeader)
    → h.request_id < 2 ^ 64
    → Reads
        (decode_request_response_header little_endian)
        (uint_bytes little_endian 8 h.request_id)
        h
unfolding decode_request_response_header
decode_request_response_header-Reads h fits =
    >>=-Reads_last _ (read_uint-Reads little_endian 8 h.request_id fits) (return-Reads h)
