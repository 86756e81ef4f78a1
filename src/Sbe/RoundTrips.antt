-- ===== src/Sbe/RoundTrips.antt =====
-- The codecs side by side: what holds of several message types at once.
use zbc_go.Common.{ℕ, ◌≡◌, Bool, true, [], ◌++◌, All}
use zbc_go.Wire.{Bytes, IsByte, Stream, ok, ByteOrder}
use zbc_go.Common.{refl}
use zbc_go.Sbe.Field.Streams.{extension-same}
use zbc_go.Sbe.ControlMessageRequest as ControlRequest
use zbc_go.Sbe.ControlMessageRequest.{ControlMessageRequest}
use zbc_go.Sbe.ControlMessageRequest.Laws as ControlRequestLaws
use zbc_go.Sbe.ControlMessageResponse as ControlResponse
use zbc_go.Sbe.ControlMessageResponse.{ControlMessageResponse}
use zbc_go.Sbe.ControlMessageResponse.Laws as ControlResponseLaws
use zbc_go.Sbe.ErrorResponse as Failure
use zbc_go.Sbe.ErrorResponse.{ErrorResponse}
use zbc_go.Sbe.ErrorResponse.Laws as FailureLaws
use zbc_go.Sbe.BrokerEventMetadata as Metadata
use zbc_go.Sbe.BrokerEventMetadata.{BrokerEventMetadata}
use zbc_go.Sbe.BrokerEventMetadata.Laws as MetadataLaws
use zbc_go.Sbe.MessageHeader as Header
use zbc_go.Sbe.MessageHeader.{MessageHeader}
use zbc_go.Sbe.MessageHeader.Laws as HeaderLaws
use zbc_go.Sbe.SubscribedEvent as Event
use zbc_go.Sbe.SubscribedEvent.{SubscribedEvent}
use zbc_go.Sbe.SubscribedEvent.Laws as EventLaws
use zbc_go.Sbe.ExecuteCommandResponse as Response
use zbc_go.Sbe.ExecuteCommandResponse.{ExecuteCommandResponse}
use zbc_go.Sbe.ExecuteCommandResponse.Laws as ResponseLaws

-- What `encode` writes, `decode` reads as `m`, in front of `rest`.
abbrev pub RoundTrips : {M : Type 0} → Stream (Unit {0}) → Stream M → M → Bytes → Type 0
RoundTrips encode decode m rest =
    (bs : Bytes) × (encode [] ≡ ok (tt, bs)) × (decode (bs ++ rest) ≡ ok (m, rest))

-- What `decode` took off the front of `src` is what `encode` writes.
abbrev pub Rewrites : Stream (Unit {0}) → Bytes → Bytes → Type 0
Rewrites encode src rest = (bs : Bytes) × (encode [] ≡ ok (tt, bs)) × (src ≡ bs ++ rest)

module _ (order : ByteOrder) (b b' : Bool) where
  -- Encode of ControlMessageRequest, ControlMessageResponse, ErrorResponse, BrokerEventMetadata and
  -- MessageHeader succeeds on a value whose fields fit their Go types, and Decode at schema version 1,
  -- of MessageHeader at any version, reads what it wrote as the same value, in both byte orders,
  -- whatever bytes follow and whatever the receiver held; a side that checks ranges needs that they
  -- hold.
  pub messages-decode-encode :
      (c old_c : ControlMessageRequest) (a old_a : ControlMessageResponse) (e old_e : ErrorResponse)
      (m old_m : BrokerEventMetadata) (h : MessageHeader)
      (acting c_block a_block e_block m_block : ℕ) (rest : Bytes)
      → ControlRequestLaws.Fits c
      → (b ≡ true → ControlRequest.range_check c 1 1 ≡ ok tt)
      → (b' ≡ true → ControlRequest.range_check c 1 1 ≡ ok tt)
      → ControlResponseLaws.Fits a
      → (b ≡ true → ControlResponse.range_check a 1 1 ≡ ok tt)
      → (b' ≡ true → ControlResponse.range_check a 1 1 ≡ ok tt)
      → FailureLaws.Fits e
      → (b ≡ true → Failure.range_check e 1 1 ≡ ok tt)
      → (b' ≡ true → Failure.range_check e 1 1 ≡ ok tt)
      → MetadataLaws.Fits m
      → (b ≡ true → Metadata.range_check m 1 1 ≡ ok tt)
      → (b' ≡ true → Metadata.range_check m 1 1 ≡ ok tt)
      → HeaderLaws.Fits h
      → RoundTrips
          (ControlRequest.encode c order b)
          (ControlRequest.decode old_c order 1 c_block b')
          c
          rest
        × RoundTrips
            (ControlResponse.encode a order b)
            (ControlResponse.decode old_a order 1 a_block b')
            a
            rest
        × RoundTrips (Failure.encode e order b) (Failure.decode old_e order 1 e_block b') e rest
        × RoundTrips (Metadata.encode m order b) (Metadata.decode old_m order 1 m_block b') m rest
        × RoundTrips (Header.encode h order) (Header.decode order acting) h rest
  messages-decode-encode c old_c a old_a e old_e m old_m h acting c_block a_block e_block m_block
        rest c_fits c_out c_in a_fits a_out a_in e_fits e_out e_in m_fits m_out m_in h_fits =
      (
        ControlRequestLaws.ControlMessageRequest-decode-encode c old_c order c_block b b' c_fits
            c_out c_in rest,
        ControlResponseLaws.ControlMessageResponse-decode-encode a old_a order a_block b b' a_fits
            a_out a_in rest,
        FailureLaws.ErrorResponse-decode-encode e old_e order e_block b b' e_fits e_out e_in rest,
        MetadataLaws.BrokerEventMetadata-decode-encode m old_m order b b' m_block m_fits m_out m_in
            rest,
        HeaderLaws.MessageHeader-decode-encode h order acting rest h_fits,
      )

  -- Where Decode of SubscribedEvent and that of ExecuteCommandResponse accept byte strings at schema
  -- version 1, Encode writes the decoded messages as exactly the bytes that Decode took; Encode may
  -- check ranges only if Decode did.
  pub messages-encode-decode :
      (e old_e : SubscribedEvent) (e_src e_rest : Bytes) (r old_r : ExecuteCommandResponse)
      (r_src r_rest : Bytes) (e_block r_block : ℕ)
      → All IsByte e_src
      → Event.decode old_e order 1 e_block b' e_src ≡ ok (e, e_rest)
      → All IsByte r_src
      → Response.decode old_r order 1 r_block b' r_src ≡ ok (r, r_rest)
      → (b ≡ true → b' ≡ true)
      → Rewrites (Event.encode e order b) e_src e_rest
        × Rewrites (Response.encode r order b) r_src r_rest
  messages-encode-decode e old_e e_src e_rest r old_r r_src r_rest e_block r_block e_bytes e_read
        r_bytes r_read both =
      (
        EventLaws.SubscribedEvent-encode-decode e old_e order e_block b b' e_src e_rest e_bytes
            e_read both,
        ResponseLaws.ExecuteCommandResponse-encode-decode r old_r order r_block b b' r_src r_rest
            r_bytes r_read both,
      )

-- What Decode with a range check at schema version 1 accepts, of SubscribedEvent,
-- ExecuteCommandResponse, ControlMessageRequest, ControlMessageResponse and ErrorResponse, has fields in
-- the ranges of their Go types, and passes RangeCheck, whatever the receiver held.
pub decode-Fits :
    (order : ByteOrder) (s old_s : SubscribedEvent) (r old_r : ExecuteCommandResponse)
    (c old_c : ControlMessageRequest) (a old_a : ControlMessageResponse) (e old_e : ErrorResponse)
    (s_src s_rest r_src r_rest c_src c_rest a_src a_rest e_src e_rest : Bytes)
    (s_block r_block c_block a_block e_block : ℕ)
    → All IsByte s_src
    → Event.decode old_s order 1 s_block true s_src ≡ ok (s, s_rest)
    → All IsByte r_src
    → Response.decode old_r order 1 r_block true r_src ≡ ok (r, r_rest)
    → All IsByte c_src
    → ControlRequest.decode old_c order 1 c_block true c_src ≡ ok (c, c_rest)
    → All IsByte a_src
    → ControlResponse.decode old_a order 1 a_block true a_src ≡ ok (a, a_rest)
    → All IsByte e_src
    → Failure.decode old_e order 1 e_block true e_src ≡ ok (e, e_rest)
    → (EventLaws.Fits s × (Event.range_check s 1 1 ≡ ok tt))
      × (ResponseLaws.Fits r × (Response.range_check r 1 1 ≡ ok tt))
      × (ControlRequestLaws.Fits c × (ControlRequest.range_check c 1 1 ≡ ok tt))
      × (ControlResponseLaws.Fits a × (ControlResponse.range_check a 1 1 ≡ ok tt))
      × (FailureLaws.Fits e × (Failure.range_check e 1 1 ≡ ok tt))
decode-Fits order s old_s r old_r c old_c a old_a e old_e s_src s_rest r_src r_rest c_src c_rest
      a_src a_rest e_src e_rest s_block r_block c_block a_block e_block s_bytes s_read r_bytes
      r_read c_bytes c_read a_bytes a_read e_bytes e_read =
    let (_, _, _, (_, s_fits, s_in)) =
      EventLaws.decode-Takes old_s order 1 s_block true
        (extension-same Event.message_spec s_block refl) s_src s s_rest s_bytes s_read in
    let (_, _, _, (_, r_fits, r_in)) =
      ResponseLaws.decode-Takes old_r order 1 r_block true
        (extension-same Response.message_spec r_block refl) r_src r r_rest r_bytes r_read in
    let (_, _, _, (_, c_fits, c_in)) =
      ControlRequestLaws.decode-Takes old_c order 1 c_block true
        (extension-same ControlRequest.message_spec c_block refl) c_src c c_rest c_bytes c_read in
    let (_, _, _, (_, a_fits, a_in)) =
      ControlResponseLaws.decode-Takes old_a order 1 a_block true
        (extension-same ControlResponse.message_spec a_block refl) a_src a a_rest a_bytes a_read in
    let (_, _, _, (_, e_fits, e_in)) =
      FailureLaws.decode-Takes old_e order 1 e_block true
        (extension-same Failure.message_spec e_block refl) e_src e e_rest e_bytes e_read in
    (
      (s_fits, s_in refl),
      (r_fits, r_in refl),
      (c_fits, c_in refl),
      (a_fits, a_in refl),
      (e_fits, e_in refl),
    )
