-- ===== src/Tests/Frames.antt =====
-- The writer on a small message.
use zbc_go.Common.{
  ℕ, ◌+◌, ◌<◌, ◌%◌, ◌≡◌, arith, Option, none, some, [], ◌∷◌, ◌++◌, length, replicate,
}
use zbc_go.Wire.{ok}
use zbc_go.Protocol.{FrameHeader, TransportHeader, RequestResponseHeader}
use zbc_go.Sbe.MessageHeader.{MessageHeader}
use zbc_go.Message.{Sbe, control_request}
use zbc_go.Writer.{align, write}
use zbc_go.Writer.Laws.{align-eq, full_message, message_layout, write-layout}

abbrev frame : FrameHeader
frame = record { frame_length = 22; version = 0; flags = 0; type_id = 0; stream_id = 2 }

abbrev transport : TransportHeader
transport = record { protocol_id = 0 }

abbrev request_id : Option RequestResponseHeader
request_id = some (record { request_id = 77 })

abbrev header : MessageHeader
header = record { block_length = 1; template_id = 10; schema_id = 0; version = 1 }

abbrev body : Sbe
body = control_request (record { message_type = 0; data_bytes = 0xc0 ∷ [] })

align-eq_example :
    (align (1 ∷ 2 ∷ 3 ∷ []) ≡ ok (tt, 1 ∷ 2 ∷ 3 ∷ 0 ∷ 0 ∷ 0 ∷ 0 ∷ 0 ∷ []))
    × (5 < 8)
    × ((3 + 5) % 8 ≡ 0)
align-eq_example = align-eq (1 ∷ 2 ∷ 3 ∷ [])

write-layout_example :
    (n : ℕ) × (write (full_message frame transport request_id header {D = Unit {0}} body none) []
      ≡ ok (tt, message_layout frame transport request_id header body ++ replicate n 0))
    × (n < 8)
    × ((length (message_layout frame transport request_id header body) + n) % 8 ≡ 0)
write-layout_example = write-layout frame transport request_id header body none (omega arith)
