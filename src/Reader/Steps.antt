-- ===== src/Reader/Steps.antt =====
-- How ReadHeaders goes on after each of its two reads.
use zbc_go.Common.{◌≡◌, ap, none, some}
use zbc_go.Wire.{Bytes, Outcome, err, frame_header_read}
use zbc_go.Protocol.{FrameHeader}
use zbc_go.Reader.Buffer.{Answer, BufReader}
use zbc_go.Reader.Headers.{Found, read_next, read_headers, read_frame, read_message}
use zbc_go.Reader.Headers.{read_message_headers}

module _ (r r' : BufReader) (bs : Bytes) where
  pub read_headers-next : read_next 12 r ≡ ((bs, none), r') → read_headers r ≡ read_frame bs r'
  unfolding read_headers
  read_headers-next e =
      ap
        (λ (answer : Answer BufReader). elim answer.0.1 as (λ _. Outcome Found × BufReader) [
          | some _ ↦ (err frame_header_read, answer.1)
          | none ↦ read_frame answer.0.0 answer.1
        ])
        e

  pub read_message-next :
      (f : FrameHeader)
      → read_next f.frame_length r ≡ ((bs, none), r')
      → read_message f r ≡ (read_message_headers f bs, r')
  unfolding read_message
  read_message-next f e =
      ap
        (λ (answer : Answer BufReader). elim answer.0.1 as (λ _. Outcome Found × BufReader) [
          | some x ↦ (err x, answer.1)
          | none ↦ (read_message_headers f answer.0.0, answer.1)
        ])
        e
