-- ===== src/Writer/Laws.antt =====
-- What MessageWriter.Write leaves in an empty buffer.
use zbc_go.Common.{ℕ, zero, suc, ◌+◌, ◌-◌, ◌%◌, ◌≤◌, ◌<◌, ◌≡◌, refl, ap, ◌∙◌, arith}
use zbc_go.Common.{false, Option, none, some, [], ◌∷◌, ◌++◌, append_assoc, append-nil}
use zbc_go.Common.{length, replicate, lt→ltb, le→ltb}
use zbc_go.Wire.{Bytes, Stream, ok, ◌>>=◌, write_bytes, little_endian, uint_bytes}
use zbc_go.Wire.Streams.{Writes, >>-Writes, write_uint-Writes}
use zbc_go.Protocol.{FrameHeader, TransportHeader, RequestResponseHeader}
use zbc_go.Protocol.{encode_transport_header, encode_request_response_header}
use zbc_go.Protocol.Laws.{frame_layout, encode_frame_header-Writes}
use zbc_go.Sbe.MessageHeader.{MessageHeader}
use zbc_go.Sbe.MessageHeader.Laws as Header
use zbc_go.Sbe.ExecuteCommandRequest.Laws as CommandRequest
use zbc_go.Sbe.ExecuteCommandResponse.Laws as CommandResponse
use zbc_go.Sbe.ControlMessageRequest.Laws as ControlRequest
use zbc_go.Sbe.ControlMessageResponse.Laws as ControlResponse
use zbc_go.Sbe.SubscribedEvent.Laws as Event
use zbc_go.Message.{Message, Headers, is_single_message, Sbe, encode_sbe}
use zbc_go.Message.{
  command_request, command_response, control_request, control_response, subscribed_event,
}
use zbc_go.Writer.{write_headers, write_message, expected_size, pad, align, fatal_on_error, write}

-- The zero bytes that align the length `n` to a multiple of eight.
abbrev pub padding : ℕ → ℕ
padding n = expected_size n - n

replicate_snoc : (s : Bytes) (n : ℕ) → (s ++ 0 ∷ []) ++ replicate n 0 ≡ s ++ replicate (suc n) 0
replicate_snoc s n = append_assoc s (0 ∷ []) (replicate n 0)

-- Enough fuel: one round for each byte that is missing.
pad-eq :
    (fuel current expected n : ℕ) (s : Bytes)
    → expected ≡ current + n
    → n ≤ fuel
    → pad fuel current expected s ≡ ok (tt, s ++ replicate n 0)
unfolding pad write_bytes
pad-eq zero current expected zero s e h = rw append-nil refl
pad-eq zero current expected (suc n) s e h = absurd (omega arith)
pad-eq (suc fuel) current expected zero s e h =
    rw (le→ltb current expected (omega arith), append-nil)
pad-eq (suc fuel) current expected (suc n) s e h = rw (lt→ltb current expected (omega arith)) (
    pad-eq fuel (current + 1) expected n (s ++ 0 ∷ []) (omega arith) (omega arith)
    ∙ ap (λ u. ok (tt, u)) (replicate_snoc s n))

-- Align appends zero bytes, fewer than eight, and leaves a multiple of eight bytes.
pub align-eq :
    (s : Bytes)
    → (align s ≡ ok (tt, s ++ replicate (padding (length s)) 0))
      × (padding (length s) < 8)
      × ((length s + padding (length s)) % 8 ≡ 0)
unfolding align
align-eq s = (
  pad-eq 7 (length s) (expected_size (length s)) (padding (length s)) s (omega arith) (omega arith),
  omega arith,
  omega arith,
)

-- The ranges of an SBE message's Go types.
abbrev pub SbeFits : Sbe → Type 0
SbeFits (command_request e) = CommandRequest.Fits e
SbeFits (command_response e) = CommandResponse.Fits e
SbeFits (control_request c) = ControlRequest.Fits c
SbeFits (control_response c) = ControlResponse.Fits c
SbeFits (subscribed_event s) = Event.Fits s

unfoldable pub sbe_layout : Sbe → Bytes
sbe_layout (command_request e) = CommandRequest.layout little_endian [] e
sbe_layout (command_response e) = CommandResponse.layout little_endian [] e
sbe_layout (control_request c) = ControlRequest.layout little_endian [] c
sbe_layout (control_response c) = ControlResponse.layout little_endian [] c
sbe_layout (subscribed_event s) = Event.layout little_endian [] s

encode_sbe-Writes :
    (sbe : Sbe) → SbeFits sbe → Writes (encode_sbe sbe little_endian false) (sbe_layout sbe)
unfolding encode_sbe sbe_layout
encode_sbe-Writes (command_request e) fits =
    CommandRequest.encode-Writes e little_endian false fits (λ h. cc)
encode_sbe-Writes (command_response e) fits =
    CommandResponse.encode-Writes e little_endian false fits (λ h. cc)
encode_sbe-Writes (control_request c) fits =
    ControlRequest.encode-Writes c little_endian false fits (λ h. cc)
encode_sbe-Writes (control_response c) fits =
    ControlResponse.encode-Writes c little_endian false fits (λ h. cc)
encode_sbe-Writes (subscribed_event s) fits =
    Event.encode-Writes s little_endian false fits (λ h. cc)

fatal_on_error-Writes :
    (m : Stream (Unit {0})) (bs : Bytes) → Writes m bs → Writes (fatal_on_error m) bs
unfolding fatal_on_error
fatal_on_error-Writes m bs h s = rw (h s, fatal_on_error)

unfoldable pub request_response_layout : Option RequestResponseHeader → Bytes
request_response_layout none = []
request_response_layout (some r) = uint_bytes little_endian 8 r.request_id

module _ (f : FrameHeader) (t : TransportHeader) (r : Option RequestResponseHeader)
    (m : MessageHeader) where
  -- The headers of a message that lacks at most the request-response header.
  abbrev pub full_headers : Headers
  full_headers = record {
    frame_header = some f;
    transport_header = some t;
    request_response_header = r;
    sbe_message_header = some m;
  }

  unfoldable pub after_frame_layout : Bytes
  unfolding request_response_layout
  after_frame_layout =
      uint_bytes little_endian 2 t.protocol_id
      ++ (request_response_layout r ++ Header.layout little_endian m)

  unfoldable pub message_layout : Sbe → Bytes
  unfolding after_frame_layout
  message_layout sbe = frame_layout f ++ (after_frame_layout ++ sbe_layout sbe)

  abbrev pub full_message : {D : Type 0} → Sbe → Option D → Message D
  full_message sbe d = record { headers = some full_headers; sbe_message = some sbe; payload = d }

write_headers-Writes :
    {D : Type 0} (f : FrameHeader) (t : TransportHeader) (r : Option RequestResponseHeader)
    (m : MessageHeader) (sbe : Sbe) (d : Option D)
    → Writes
        (write_headers (full_message f t r m sbe d))
        (frame_layout f ++ after_frame_layout f t r m)
unfolding write_headers after_frame_layout is_single_message encode_transport_header
    encode_request_response_header
write_headers-Writes f t none m sbe d = >>-Writes _ _ _ _ (encode_frame_header-Writes f) (
    >>-Writes _ _ _ _ (write_uint-Writes little_endian 2 t.protocol_id)
      (Header.encode-Writes m little_endian))
write_headers-Writes f t (some r) m sbe d = >>-Writes _ _ _ _ (encode_frame_header-Writes f) (
    >>-Writes _ _ _ _ (write_uint-Writes little_endian 2 t.protocol_id) (
      >>-Writes _ _ _ _ (write_uint-Writes little_endian 8 r.request_id)
        (Header.encode-Writes m little_endian)))

write_message-Writes :
    {D : Type 0} (f : FrameHeader) (t : TransportHeader) (r : Option RequestResponseHeader)
    (m : MessageHeader) (sbe : Sbe) (d : Option D)
    → SbeFits sbe
    → Writes (write_message (full_message f t r m sbe d)) (sbe_layout sbe)
unfolding write_message
write_message-Writes f t r m sbe d fits = encode_sbe-Writes sbe fits

-- Write fills an empty buffer with the frame header, the other headers and the SBE message, and
-- then zero bytes, fewer than eight, up to a multiple of eight bytes. The message has all parts but,
-- it may be, the request-response header, and the fields of its SBE part fit their types.
pub write-layout :
    {D : Type 0} (f : FrameHeader) (t : TransportHeader) (r : Option RequestResponseHeader)
    (m : MessageHeader) (sbe : Sbe) (d : Option D)
    → SbeFits sbe
    → (n : ℕ) × (write (full_message f t r m sbe d) []
        ≡ ok (tt, message_layout f t r m sbe ++ replicate n 0))
      × (n < 8)
      × ((length (message_layout f t r m sbe) + n) % 8 ≡ 0)
unfolding write message_layout
write-layout f t r m sbe d fits =
    let bs = frame_layout f ++ (after_frame_layout f t r m ++ sbe_layout sbe) in
    let headers = frame_layout f ++ after_frame_layout f t r m in
    let body : headers ++ sbe_layout sbe ≡ bs =
      append_assoc (frame_layout f) (after_frame_layout f t r m) (sbe_layout sbe) in
    let (aligned, small, whole) = align-eq bs in
    (
      padding (length bs),
      rw
          (
            fatal_on_error-Writes _ _ (write_headers-Writes f t r m sbe d) [],
            ◌>>=◌,
            fatal_on_error-Writes _ _ (write_message-Writes f t r m sbe d fits) headers,
            body,
          )
          aligned,
      small,
      whole,
    )
