-- ===== src/Writer.antt =====
-- zbc/writer.go: MessageWriter, over the bytes that its buffer has got.
pub mod Laws
use zbc_go.Common.{
  ℕ, zero, suc, ◌+◌, ◌*◌, ◌/◌, true, false, some, [], ◌∷◌, ltb, if◌then◌else◌, length,
}
use zbc_go.Wire.{
  Stream, ok, err, panic, fatal_exit, ◌>>=◌, ◌>>◌, return, little_endian, write_bytes,
}
use zbc_go.Protocol.{encode_frame_header, encode_transport_header, encode_request_response_header}
use zbc_go.Sbe.MessageHeader
use zbc_go.Message.{Message, Headers, is_single_message, encode_sbe, deref}

module _ {D : Type 0} (m : Message D) where
  write_frame_header : Stream (Unit {0})
  write_frame_header = do
    h ← deref m.headers
    header ← deref h.frame_header
    encode_frame_header header

  write_transport_header : Stream (Unit {0})
  write_transport_header = do
    h ← deref m.headers
    header ← deref h.transport_header
    encode_transport_header header

  write_request_response_header : Stream (Unit {0})
  write_request_response_header = do
    h ← deref m.headers
    if is_single_message h
        then return tt
        else (do header ← deref h.request_response_header; encode_request_response_header header)

  write_sbe_message_header : Stream (Unit {0})
  write_sbe_message_header = do
    h ← deref m.headers
    header ← deref h.sbe_message_header
    MessageHeader.encode header little_endian

  unfoldable pub write_headers : Stream (Unit {0})
  unfolding write_frame_header write_transport_header write_request_response_header
      write_sbe_message_header
  write_headers = do
    write_frame_header
    write_transport_header
    write_request_response_header
    write_sbe_message_header

  unfoldable pub write_message : Stream (Unit {0})
  write_message = do sbe ← deref m.sbe_message; encode_sbe sbe little_endian false

-- `(currentSize + 7) & ^7`
abbrev pub expected_size : ℕ → ℕ
expected_size current = (current + 7) / 8 * 8

-- The loop of align, with fuel.
pad : ℕ → ℕ → ℕ → Stream (Unit {0})
pad zero current expected = return tt
pad (suc fuel) current expected =
    let rest = (do write_bytes (0 ∷ []); pad fuel (current + 1) expected) in
    if ltb current expected then rest else return tt

unfoldable pub align : Stream (Unit {0})
unfolding pad
align s = pad 7 (length s) (expected_size (length s)) s

-- log.Fatal on an error.
unfoldable pub fatal_on_error : Stream (Unit {0}) → Stream (Unit {0})
fatal_on_error m s = elim (m s) [ ok r ↦ ok r | err _ ↦ panic fatal_exit | panic p ↦ panic p ]

unfoldable pub write : {D : Type 0} → Message D → Stream (Unit {0})
write m = do fatal_on_error (write_headers m); fatal_on_error (write_message m); align
