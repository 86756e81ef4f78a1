-- ===== src/Tests/Unparsed.antt =====
-- A response with a document that the MessagePack library does not read.
use zbc_go.Common.{append-nil, ◌≡◌, refl, ap, arith, Option, none, some, [], ◌∷◌}
use zbc_go.Wire.{Bytes, ok, err, timeout, message_pack}
use zbc_go.Writer.Laws.{full_headers, sbe_layout}
use zbc_go.Reader.Headers.{read_headers}
use zbc_go.Reader.Parse.{parse_message}
use zbc_go.Reader.Messages.{parse_message-unreadable}
use zbc_go.Reader.Written.{read_headers-write}
use zbc_go.Request.Values.{Data, nil_data}
use zbc_go.Client.{new_reader_size, nil_channel, response_channel, request_id_of, new_client, put}
use zbc_go.Client.Steps.{call, returned, initial, register, finish, receiver_turn, responder, sent}
use zbc_go.Client.Steps.{time_out, System, Steps, stop, ◌then◌}
use zbc_go.Client.Places.{SomeAt}
use zbc_go.Client.Matching.Lost.{Unanswered}
use zbc_go.Client.Matching.Unparsed.{unparsed-Unanswered}
use zbc_go.Tests.Broker.{frame, transport, request_id, header, response, response_bytes}
use zbc_go.Tests.Broker.{response-Sound, response-Announced, response-written}
use zbc_go.Tests.Client.{X, answer, opened, waits, write_all, answer-sent}

-- A MessagePack library that reads nothing.
abbrev reads_nothing : Bytes → Option (Data X)
reads_nothing bs = none

abbrev turned : System X
turned = receiver_turn reads_nothing waits

abbrev timed_out : System X
timed_out = finish 77 (call answer 77 (returned (err timeout)) ∷ []) turned

waits-Steps : Steps reads_nothing opened waits
unfolding initial register put request_id_of
waits-Steps =
    responder answer 77 refl then sent write_all answer 77 [] [] refl answer-sent then stop

response-found :
    (read_headers (new_reader_size (response_bytes ∷ []) 20000)).0
    ≡ ok (some (full_headers frame transport (some request_id) header, sbe_layout response))
unfolding new_reader_size
response-found =
    let (n, few, read) =
      read_headers-write frame transport (some request_id) header response (some nil_data)
        response_bytes 20000 [] response-Sound (omega arith) (response-written (some nil_data))
        (omega arith) in
    ap (λ x. x.0) read

response-unread :
    parse_message reads_nothing
      (some (full_headers frame transport (some request_id) header))
      (sbe_layout response)
    ≡ err message_pack
response-unread = rw append-nil at (
    parse_message-unreadable reads_nothing (full_headers frame transport (some request_id) header)
      header [] response (omega arith) response-Announced refl)

unparsed-Unanswered_example :
    (turned.client.transactions 77 ≡ nil_channel)
    × SomeAt (Unanswered answer 77 (response_channel 77 0)) 0 timed_out.calls
unfolding initial register put new_client receiver_turn
unparsed-Unanswered_example =
    unparsed-Unanswered reads_nothing (response_bytes ∷ []) waits timed_out
      (full_headers frame transport (some request_id) header) request_id (sbe_layout response)
      message_pack answer 0 [] [] waits-Steps response-found refl response-unread refl refl
      (time_out (response_channel 77 0) answer 77 [] [] refl then stop)
