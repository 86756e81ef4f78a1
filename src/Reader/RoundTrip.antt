-- ===== src/Reader/RoundTrip.antt =====
-- ReadHeaders on the bytes that MessageWriter.Write has written.
use zbc_go.Common.{ℕ, ◌^◌, ◌≤◌, ◌<◌, ◌≡◌, inl, inr, refl, sym, ap, ◌∙◌, arith}
use zbc_go.Common.{Option, none, some, [], ◌∷◌, ◌++◌, append_assoc}
use zbc_go.Common.{length, length-append}
use zbc_go.Wire.{Bytes, ok, little_endian, uint_bytes}
use zbc_go.Wire.Integers.{length-uint_bytes}
use zbc_go.Protocol.{FrameHeader, TransportHeader, RequestResponseHeader}
use zbc_go.Protocol.Laws.{FrameFits, frame_layout, length-frame_layout}
use zbc_go.Sbe.MessageHeader.{MessageHeader}
use zbc_go.Sbe.MessageHeader.Laws as Header
use zbc_go.Message.{
  Sbe, set_request_response_header, set_transport_header, set_frame_header, no_headers,
}
use zbc_go.Writer.Laws.{sbe_layout, request_response_layout, full_headers, after_frame_layout}
use zbc_go.Writer.Laws.{message_layout}
use zbc_go.Reader.Steps.{read_headers-next, read_message-next}
use zbc_go.Reader.Buffer.{Connection, BufReader}
use zbc_go.Reader.Headers.{read_message_headers, read_headers, read_frame, read_message}
use zbc_go.Reader.Laws.{slice-append, reader}
use zbc_go.Reader.Laws.{read_next-buffered, read_next-fetched}
use zbc_go.Reader.Sections.{read_sbe_part-eq, read_transport_header-eq, single_id, pair_id}
use zbc_go.Reader.Sections.{read_request_response_part-eq, read_frame_header-eq}

-- The protocol id says whether there is a request-response header.
abbrev pub Announces : TransportHeader → Option RequestResponseHeader → Type 0
Announces t none = t.protocol_id ≡ 1
Announces t (some r) = (t.protocol_id ≡ 0) × (r.request_id < 2 ^ 64)

module _ (f : FrameHeader) (t : TransportHeader) (m : MessageHeader) (fits : Header.Fits m)
    (body : Bytes) where
  read_message_headers_single :
      t.protocol_id ≡ 1
      → read_message_headers f
          (uint_bytes little_endian 2 t.protocol_id ++ (Header.layout little_endian m ++ body))
        ≡ ok (some (full_headers f t none m, body))
  unfolding read_message_headers
  read_message_headers_single single =
      let id = uint_bytes little_endian 2 t.protocol_id in
      let rest = Header.layout little_endian m ++ body in
      let size : length id ≡ 2 = length-uint_bytes little_endian 2 t.protocol_id in
      rw
        (
          slice-append [] id rest 0 2 refl (omega (arith, size)),
          read_transport_header-eq t (inr single),
          (single_id t.protocol_id single).0,
          (single_id t.protocol_id single).1,
        )
        (read_sbe_part-eq m fits body
          (set_request_response_header none
            (set_transport_header (some t) (set_frame_header (some f) no_headers)))
          id 2 size)

  read_message_headers_pair :
      (r : RequestResponseHeader)
      → t.protocol_id ≡ 0
      → r.request_id < 2 ^ 64
      → read_message_headers f (
          uint_bytes little_endian 2 t.protocol_id
          ++ (uint_bytes little_endian 8 r.request_id ++ (Header.layout little_endian m ++ body)))
        ≡ ok (some (full_headers f t (some r) m, body))
  unfolding read_message_headers
  read_message_headers_pair r pair small =
      let id = uint_bytes little_endian 2 t.protocol_id in
      let rest =
        uint_bytes little_endian 8 r.request_id ++ (Header.layout little_endian m ++ body) in
      let size : length id ≡ 2 = length-uint_bytes little_endian 2 t.protocol_id in
      rw
        (
          slice-append [] id rest 0 2 refl (omega (arith, size)),
          read_transport_header-eq t (inl pair),
          pair_id t.protocol_id pair,
        )
        (read_request_response_part-eq m fits body
          (set_transport_header (some t) (set_frame_header (some f) no_headers)) id r size small)

  -- The bytes behind the frame header, and what is read from them.
  pub read_message_headers-eq :
      (r : Option RequestResponseHeader)
      → Announces t r
      → read_message_headers f (after_frame_layout f t r m ++ body)
        ≡ ok (some (full_headers f t r m, body))
  unfolding after_frame_layout
  read_message_headers-eq none single =
      let id = uint_bytes little_endian 2 t.protocol_id in
      rw (append_assoc id (Header.layout little_endian m) body) (read_message_headers_single single)
  read_message_headers-eq (some r) (pair, small) =
      let id = uint_bytes little_endian 2 t.protocol_id in
      let request = uint_bytes little_endian 8 r.request_id in
      let header = Header.layout little_endian m in
      rw (append_assoc id (request ++ header) body, append_assoc request header body)
        (read_message_headers_pair r pair small)

pub read_frame-eq :
    (f : FrameHeader)
    → FrameFits f
    → (r : BufReader) → read_frame (frame_layout f) r ≡ read_message f r
unfolding read_frame
read_frame-eq f fits r = rw (read_frame, read_frame_header-eq f fits)

module _ (f : FrameHeader) (t : TransportHeader) (r : Option RequestResponseHeader)
    (m : MessageHeader) (sbe : Sbe) where
  -- What the frame header counts.
  abbrev pub content : Bytes
  content = after_frame_layout f t r m ++ sbe_layout sbe

  pub record Sound : Type 0 where
    pub frame_fits : FrameFits f
    pub header_fits : Header.Fits m
    pub announced : Announces t r
    pub counted : f.frame_length ≡ length content

  content-pos : 0 < length content
  unfolding after_frame_layout
  content-pos =
      let id = uint_bytes little_endian 2 t.protocol_id in
      let headers = request_response_layout r ++ Header.layout little_endian m in
      omega (
        arith,
        length-append (id ++ headers) (sbe_layout sbe),
        length-append id headers,
        length-uint_bytes little_endian 2 t.protocol_id,
      )

  -- The written bytes of such a message, delivered in one segment that fits the reader's buffer, are
  -- read as its headers and its SBE body. What follows the frame stays in the buffer.
  pub read_headers-layout :
      (size : ℕ) (behind : Bytes) (later : Connection)
      → Sound
      → length (message_layout f t r m sbe ++ behind) ≤ size
      → read_headers (reader size [] ((message_layout f t r m sbe ++ behind) ∷ later))
        ≡ (ok (some (full_headers f t r m, sbe_layout sbe)), reader size behind later)
  unfolding message_layout
  read_headers-layout size behind later sound fits =
      let frame = frame_layout f in
      let split : message_layout f t r m sbe ++ behind ≡ frame ++ (content ++ behind) =
        append_assoc frame content behind in
      let small : 12 < size = omega (
        arith,
        fits,
        ap length split,
        length-append frame (content ++ behind),
        length-append content behind,
        length-frame_layout f,
        content-pos,
      ) in
      let first =
        read_next-fetched size later frame (content ++ behind) 12 (length-frame_layout f)
          (omega arith) small (rw split at fits) in
      let second =
        read_next-buffered size later content behind f.frame_length (sym sound.counted)
          (omega (arith, sound.counted, content-pos)) in
      let parsed =
        read_message_headers-eq f t m sound.header_fits (sbe_layout sbe) r sound.announced in
      rw split (
        read_headers-next _ _ frame first
        ∙ read_frame-eq f sound.frame_fits (reader size (content ++ behind) later)
        ∙ read_message-next _ _ content f second
        ∙ ap (λ found. (found, reader size behind later)) parsed)
