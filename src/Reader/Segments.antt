-- ===== src/Reader/Segments.antt =====
-- ReadHeaders on a frame that the connection delivers in more than one segment.
use zbc_go.Common.{
  ℕ, ◌+◌, ◌≤◌, ◌<◌, ◌≡◌, refl, ap, ◌∙◌, arith, [], ◌∷◌, ◌++◌, length, length-append,
}
use zbc_go.Wire.{Bytes, panic, slice_bounds}
use zbc_go.Protocol.{FrameHeader}
use zbc_go.Protocol.Laws.{FrameFits, frame_layout, length-frame_layout}
use zbc_go.Reader.Buffer.{Connection, slice}
use zbc_go.Reader.Headers.{read_headers, read_message_headers}
use zbc_go.Reader.Laws.{reader, read_next-fetched, read_next-short}
use zbc_go.Reader.Steps.{read_headers-next, read_message-next}
use zbc_go.Reader.RoundTrip.{read_frame-eq}

read_message_headers_nil : (f : FrameHeader) → read_message_headers f [] ≡ panic slice_bounds
unfolding read_message_headers slice
read_message_headers_nil f = refl

-- If the first segment holds a frame header and a part of what it counts, which together fit the
-- reader's buffer, then ReadHeaders panics, whatever arrives later: readNext answers a short read
-- by a nil slice without an error.
pub read_headers-short_segment :
    (f : FrameHeader) (part : Bytes) (size : ℕ) (later : Connection)
    → FrameFits f
    → 0 < length part
    → length part < f.frame_length
    → 12 + length part ≤ size
    → read_headers (reader size [] ((frame_layout f ++ part) ∷ later))
      ≡ (panic slice_bounds, reader size [] later)
read_headers-short_segment f part size later frame_fits some_part short fits =
    let frame = frame_layout f in
    let first =
      read_next-fetched size later frame part 12 (length-frame_layout f) (omega arith) (omega arith)
        (omega (arith, length-append frame part, length-frame_layout f)) in
    let second = read_next-short size later part f.frame_length some_part short in
    read_headers-next _ _ frame first
    ∙ read_frame-eq f frame_fits (reader size part later)
    ∙ read_message-next _ _ [] f second
    ∙ ap (λ found. (found, reader size [] later)) (read_message_headers_nil f)
