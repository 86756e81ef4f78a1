-- ===== src/Reader/Written.antt =====
-- MessageWriter and MessageReader together.
use zbc_go.Common.{ℕ, ◌≤◌, ◌<◌, ◌≡◌, sym, ◌∙◌, Option, some, [], ◌∷◌, ◌++◌, length, replicate}
use zbc_go.Wire.{Bytes, ok}
use zbc_go.Wire.Prefixes.{ok-injective}
use zbc_go.Protocol.{FrameHeader, TransportHeader, RequestResponseHeader}
use zbc_go.Sbe.MessageHeader.{MessageHeader}
use zbc_go.Message.{Sbe}
use zbc_go.Writer.{write}
use zbc_go.Writer.Laws.{
  SbeFits, sbe_layout, full_headers, full_message, message_layout, write-layout,
}
use zbc_go.Reader.Buffer.{Connection}
use zbc_go.Reader.Headers.{read_headers}
use zbc_go.Reader.Laws.{reader}
use zbc_go.Reader.RoundTrip.{Sound, read_headers-layout}

module _ (f : FrameHeader) (t : TransportHeader) (r : Option RequestResponseHeader)
    (m : MessageHeader) (sbe : Sbe) {D : Type 0} (d : Option D) where
  -- What Write has put into an empty buffer, delivered in one segment that fits the reader's buffer,
  -- is read by ReadHeaders as the headers of the message and the bytes of its SBE part, and fewer
  -- than eight zero bytes stay in the buffer; the fields fit their Go types, the protocol id says
  -- whether there is a request-response header, and the frame header counts the bytes behind it.
  pub read_headers-write :
      (bs : Bytes) (size : ℕ) (later : Connection)
      → Sound f t r m sbe
      → SbeFits sbe
      → write (full_message f t r m sbe d) [] ≡ ok (tt, bs)
      → length bs ≤ size
      → (n : ℕ) × (n < 8)
        × (read_headers (reader size [] (bs ∷ later))
            ≡ (ok (some (full_headers f t r m, sbe_layout sbe)), reader size (replicate n 0) later))
  read_headers-write bs size later sound fits written small =
      let (n, same, few, _) = write-layout f t r m sbe d fits in
      let wire : bs ≡ message_layout f t r m sbe ++ replicate n 0 =
        ok-injective (sym written ∙ same) in
      (
        n,
        few,
        rw wire
            (read_headers-layout f t r m sbe size (replicate n 0) later sound (rw wire at small)),
      )
