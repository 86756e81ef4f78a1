-- ===== src/Reader/Sections.antt =====
-- The decoders of ReadHeaders, each on the section of a message that it is given.
use zbc_go.Common.{ℕ, ◌+◌, ◌^◌, ◌<◌, ◌≡◌, ◌⊎◌, sym, arith, true, false, ◌||◌}
use zbc_go.Common.{some, [], ◌++◌, append_assoc, append-nil, ◌==◌}
use zbc_go.Common.{length, length-append}
use zbc_go.Wire.{Bytes, ok, little_endian, uint_bytes}
use zbc_go.Wire.Integers.{length-uint_bytes}
use zbc_go.Wire.Outcomes.{◌>>=◌}
use zbc_go.Protocol.{FrameHeader, TransportHeader, RequestResponseHeader}
use zbc_go.Protocol.Laws.{FrameFits, frame_layout, decode_frame_header-Reads}
use zbc_go.Protocol.Laws.{decode_transport_header-Reads, decode_request_response_header-Reads}
use zbc_go.Sbe.MessageHeader.{MessageHeader}
use zbc_go.Sbe.MessageHeader.Laws as Header
use zbc_go.Message.{Headers, set_sbe_message_header, set_request_response_header}
use zbc_go.Reader.Headers.{read_frame_header, read_transport_header, read_request_response_header}
use zbc_go.Reader.Headers.{read_sbe_message_header, read_sbe_part, read_request_response_part}
use zbc_go.Reader.Laws.{decode_from-Reads, slice-append, slice_from-append}

pub length-header : (m : MessageHeader) → length (Header.layout little_endian m) ≡ 8
unfolding Header.layout
length-header m = omega (arith, length-append {0}, length-uint_bytes)

module _ (m : MessageHeader) (fits : Header.Fits m) (body : Bytes) where
  read_sbe_message_header-eq : read_sbe_message_header (Header.layout little_endian m) ≡ ok m
  unfolding read_sbe_message_header
  read_sbe_message_header-eq =
      rw append-nil at (decode_from-Reads [] (Header.decode-Reads little_endian 0 m fits))

  pub read_sbe_part-eq :
      (h : Headers) (xs : Bytes) (index : ℕ)
      → length xs ≡ index
      → read_sbe_part h index (xs ++ (Header.layout little_endian m ++ body))
        ≡ ok (some (set_sbe_message_header (some m) h, body))
  unfolding read_sbe_part
  read_sbe_part-eq h xs index e =
      let header = Header.layout little_endian m in
      let front : length (xs ++ header) ≡ index + 8 =
        omega (arith, length-append xs header, length-header m, e) in
      rw (
        slice-append xs header body index (index + 8) e (omega (arith, length-header m)),
        read_sbe_message_header-eq,
        ← append_assoc xs header body,
        slice_from-append (xs ++ header) body (index + 8) front,
      )

  read_sbe_part_at :
      (h : Headers) (message xs : Bytes) (index : ℕ)
      → message ≡ xs ++ (Header.layout little_endian m ++ body)
      → length xs ≡ index
      → read_sbe_part h index message ≡ ok (some (set_sbe_message_header (some m) h, body))
  read_sbe_part_at h message xs index split e = rw split (read_sbe_part-eq h xs index e)

pub known_id : (p : ℕ) → (p ≡ 0) ⊎ (p ≡ 1) → (p == 0 || p == 1) ≡ true
known_id p h = ground arith

pub single_id : (p : ℕ) → p ≡ 1 → ((p == 0) ≡ false) × ((p == 1) ≡ true)
single_id p h = ground arith

pub pair_id : (p : ℕ) → p ≡ 0 → (p == 0) ≡ true
pair_id p h = ground arith

pub read_transport_header-eq :
    (t : TransportHeader)
    → (t.protocol_id ≡ 0) ⊎ (t.protocol_id ≡ 1)
    → read_transport_header (uint_bytes little_endian 2 t.protocol_id) ≡ ok t
unfolding read_transport_header
read_transport_header-eq t known =
    let got = decode_from-Reads [] (decode_transport_header-Reads t (omega arith)) in
    rw (rw append-nil at got, known_id t.protocol_id known)

read_request_response_header-eq :
    (r : RequestResponseHeader)
    → r.request_id < 2 ^ 64
    → read_request_response_header (uint_bytes little_endian 8 r.request_id) ≡ ok r
unfolding read_request_response_header
read_request_response_header-eq r fits =
    rw append-nil at (decode_from-Reads [] (decode_request_response_header-Reads r fits))

module _ (m : MessageHeader) (fits : Header.Fits m) (body : Bytes) where
  pub read_request_response_part-eq :
      (h : Headers) (id : Bytes) (r : RequestResponseHeader)
      → length id ≡ 2
      → r.request_id < 2 ^ 64
      → read_request_response_part h (
          id
          ++ (uint_bytes little_endian 8 r.request_id ++ (Header.layout little_endian m ++ body)))
        ≡ ok (some (set_sbe_message_header (some m) (set_request_response_header (some r) h), body))
  unfolding read_request_response_part
  read_request_response_part-eq h id r size small =
      let request = uint_bytes little_endian 8 r.request_id in
      let behind = Header.layout little_endian m ++ body in
      let size' : length request ≡ 8 = length-uint_bytes little_endian 8 r.request_id in
      rw
        (
          slice-append id request behind 2 10 size (omega (arith, size')),
          ◌>>=◌,
          read_request_response_header-eq r small,
        )
        (read_sbe_part_at m fits body (set_request_response_header (some r) h) _ (id ++ request) 10
          (sym (append_assoc id request behind))
          (omega (arith, length-append id request, size, size')))

pub read_frame_header-eq :
    (f : FrameHeader) → FrameFits f → read_frame_header (frame_layout f) ≡ ok f
unfolding read_frame_header
read_frame_header-eq f fits =
    let got = (decode_frame_header-Reads f fits).apply [] in
    rw (rw append-nil at got, read_frame_header)
