-- ===== src/Tests/Codecs.antt =====
-- Several codecs at once, and the enumerations.
use zbc_go.Common.{refl, arith, [], ◌∷◌, All, true, false}
use zbc_go.Wire.{ok, little_endian, big_endian}
use zbc_go.Sbe.Field.{check_field, check_enum, check_utf8}
use zbc_go.Sbe.Signed.{check_int_field}
use zbc_go.Sbe.ControlMessageRequest.{ControlMessageRequest}
use zbc_go.Sbe.ControlMessageRequest as ControlRequest
use zbc_go.Sbe.ControlMessageResponse.{ControlMessageResponse}
use zbc_go.Sbe.ControlMessageResponse as ControlResponse
use zbc_go.Sbe.ErrorResponse.{ErrorResponse}
use zbc_go.Sbe.ErrorResponse as Failure
use zbc_go.Sbe.BrokerEventMetadata as Metadata
use zbc_go.Sbe.MessageHeader.{MessageHeader}
use zbc_go.Sbe.MessageHeader as Header
use zbc_go.Sbe.SubscribedEvent as Event
use zbc_go.Sbe.ExecuteCommandResponse as Response
use zbc_go.Sbe.ControlMessageRequest.Laws as ControlRequestLaws
use zbc_go.Sbe.ControlMessageResponse.Laws as ControlResponseLaws
use zbc_go.Sbe.ErrorResponse.Laws as FailureLaws
use zbc_go.Sbe.SubscribedEvent.Laws as EventLaws
use zbc_go.Sbe.ExecuteCommandResponse.Laws as ResponseLaws
use zbc_go.Common.{refl, ◌≡◌}
use zbc_go.Sbe.Field.{check_field, check_enum, check_utf8, read_field, read_enum_field}
use zbc_go.Sbe.Field.{read_var_field, skip_extension}
use zbc_go.Wire.{read_uint}
use zbc_go.Sbe.RoundTrips.{
  decode-Fits, RoundTrips, Rewrites, messages-decode-encode, messages-encode-decode,
}
use zbc_go.Sbe.Enums.Laws.{IsCodec, enumerations, enumerations-IsCodec}
use zbc_go.Tests.Sbe.{control, no_control, answer, failure, no_failure, header}
use zbc_go.Tests.Sbe.{event, no_event, event_bytes, event_decodes}
use zbc_go.Tests.Sbe.{response, no_response, response_bytes, response_decodes}
use zbc_go.Tests.Metadata.{metadata}

messages-decode-encode_example :
    RoundTrips
      (ControlRequest.encode control big_endian false)
      (ControlRequest.decode no_control big_endian 1 1 true)
      control
      (7 ∷ [])
    × RoundTrips
        (ControlResponse.encode answer big_endian false)
        (ControlResponse.decode (record { data_bytes = [] }) big_endian 1 0 true)
        answer
        (7 ∷ [])
    × RoundTrips
        (Failure.encode failure big_endian false)
        (Failure.decode no_failure big_endian 1 1 true)
        failure
        (7 ∷ [])
    × RoundTrips
        (Metadata.encode metadata big_endian false)
        (Metadata.decode metadata big_endian 1 35 true)
        metadata
        (7 ∷ [])
    × RoundTrips (Header.encode header big_endian) (Header.decode big_endian 0) header (7 ∷ [])
unfolding ControlRequest.range_check ControlResponse.range_check Failure.range_check
    Metadata.range_check check_enum check_utf8 check_field check_int_field
messages-decode-encode_example =
    messages-decode-encode big_endian false true control no_control answer
      (record { data_bytes = [] }) failure no_failure metadata metadata header 0 1 0 1 35 (7 ∷ [])
      (omega arith) (λ _. refl) (λ _. refl) (omega arith) (λ _. refl) (λ _. refl) (omega arith)
      (λ _. refl) (λ _. refl)
      (record {
        req_stream_id_fits = omega arith;
        req_request_id_fits = omega arith;
        raft_term_id_fits = omega arith;
        subscription_id_fits = omega arith;
        protocol_version_fits = omega arith;
        event_type_fits = omega arith;
        incident_key_fits = omega arith;
      })
      (λ _. refl) (λ _. refl) (omega arith)

messages-encode-decode_example :
    Rewrites (Event.encode event little_endian true) event_bytes []
    × Rewrites (Response.encode response little_endian true) response_bytes []
messages-encode-decode_example =
    messages-encode-decode little_endian true true event no_event event_bytes [] response
      no_response response_bytes [] 28 18 (omega arith) event_decodes (omega arith) response_decodes
      (λ _. refl)

enumerations-IsCodec_example : All (λ m. IsCodec m little_endian 1 1 254 (3 ∷ [])) enumerations
enumerations-IsCodec_example =
    enumerations-IsCodec little_endian 1 1 254 (3 ∷ []) (omega arith) (omega arith)

control_decodes :
    ControlRequest.decode no_control little_endian 1 1 true (2 ∷ 1 ∷ 0 ∷ 0x0a ∷ [])
    ≡ ok (control, [])
unfolding ControlRequest.decode ControlRequest.range_check check_field check_enum check_utf8
    read_field read_enum_field read_var_field read_uint skip_extension
control_decodes = refl

answer_decodes :
    ControlResponse.decode
      (record { data_bytes = [] })
      little_endian
      1
      0
      true
      (2 ∷ 0 ∷ 0xff ∷ 0x00 ∷ [])
    ≡ ok (answer, [])
unfolding ControlResponse.decode ControlResponse.range_check check_field check_enum check_utf8
    read_field read_enum_field read_var_field read_uint skip_extension
answer_decodes = refl

failure_decodes :
    Failure.decode no_failure little_endian 1 1 true (1 ∷ 1 ∷ 0 ∷ b'n' ∷ 0 ∷ 0 ∷ [])
    ≡ ok (failure, [])
unfolding Failure.decode Failure.range_check check_field check_enum check_utf8 read_field
    read_enum_field read_var_field read_uint skip_extension
failure_decodes = refl

decode-Fits_example :
    (EventLaws.Fits event × (Event.range_check event 1 1 ≡ ok tt))
    × (ResponseLaws.Fits response × (Response.range_check response 1 1 ≡ ok tt))
    × (ControlRequestLaws.Fits control × (ControlRequest.range_check control 1 1 ≡ ok tt))
    × (ControlResponseLaws.Fits answer × (ControlResponse.range_check answer 1 1 ≡ ok tt))
    × (FailureLaws.Fits failure × (Failure.range_check failure 1 1 ≡ ok tt))
decode-Fits_example =
    decode-Fits little_endian event no_event response no_response control no_control answer
      (record { data_bytes = [] }) failure no_failure event_bytes [] response_bytes []
      (2 ∷ 1 ∷ 0 ∷ 0x0a ∷ []) [] (2 ∷ 0 ∷ 0xff ∷ 0x00 ∷ []) [] (1 ∷ 1 ∷ 0 ∷ b'n' ∷ 0 ∷ 0 ∷ []) [] 28
      18 1 0 1 (omega arith) event_decodes (omega arith) response_decodes (omega arith)
      control_decodes (omega arith) answer_decodes (omega arith) failure_decodes
