-- ===== src/Tests/Reader.antt =====
-- MessageReader on what the tests' broker sends.
use zbc_go.Common.{◌≢◌, none, ℕ, ◌<◌, ◌≡◌, arith, some, [], ◌∷◌, ◌++◌, replicate}
use zbc_go.Wire.{ok, panic, slice_bounds}
use zbc_go.Protocol.Laws.{frame_layout}
use zbc_go.Writer.Laws.{full_headers, sbe_layout}
use zbc_go.Reader.Laws.{reader}
use zbc_go.Reader.Headers.{read_headers}
use zbc_go.Reader.Written.{read_headers-write}
use zbc_go.Reader.Results.{read_headers-found}
use zbc_go.Reader.Segments.{read_headers-short_segment}
use zbc_go.Request.Values.{nil_data}
use zbc_go.Tests.Broker.{frame, transport, request_id, header, response, response_bytes}
use zbc_go.Tests.Broker.{response-written, response-Sound}

read_headers-write_example :
    (n : ℕ) × (n < 8)
    × (read_headers (reader 20000 [] (response_bytes ∷ (1 ∷ []) ∷ [])) ≡ (
      ok (some (full_headers frame transport (some request_id) header, sbe_layout response)),
      reader 20000 (replicate n 0) ((1 ∷ []) ∷ []),
    ))
read_headers-write_example =
    read_headers-write frame transport (some request_id) header response (some nil_data)
      response_bytes 20000 ((1 ∷ []) ∷ []) response-Sound (omega arith)
      (response-written (some nil_data)) (omega arith)

read_headers-short_segment_example :
    read_headers (reader 20000 [] ((frame_layout frame ++ 0 ∷ 0 ∷ 77 ∷ []) ∷ (1 ∷ []) ∷ []))
    ≡ (panic slice_bounds, reader 20000 [] ((1 ∷ []) ∷ []))
read_headers-short_segment_example =
    read_headers-short_segment frame (0 ∷ 0 ∷ 77 ∷ []) 20000 ((1 ∷ []) ∷ []) (omega arith)
      (omega arith) (omega arith) (omega arith)

read_headers-found_example : (read_headers (reader 20000 [] (response_bytes ∷ []))).0 ≢ ok none
read_headers-found_example = read_headers-found (reader 20000 [] (response_bytes ∷ []))
