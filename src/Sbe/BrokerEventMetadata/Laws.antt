-- ===== src/Sbe/BrokerEventMetadata/Laws.antt =====
-- BrokerEventMetadata through Encode and Decode.
use zbc_go.Common.{
  ℕ, ◌+◌, ◌^◌, ◌∙◌, length-append, ◌≤◌, ◌<◌, ◌≡◌, refl, sym, arith, Bool, true, [], ◌++◌, length,
  ltb, le→ltb, Bool-cases, inl, inr, false,
}
use zbc_go.Wire.{Bytes, ok, ByteOrder, uint_bytes}
use zbc_go.Wire.Streams.{Reads, Writes, >>=-Reads, >>=-Reads_last, >>-Writes, return-Reads}
use zbc_go.Wire.Streams.{write_uint-Writes}
use zbc_go.Wire.Prefixes.{ok-injective}
use zbc_go.Wire.Integers.{length-uint_bytes}
use zbc_go.Sbe.Field.{extension}
use zbc_go.Sbe.Field.Streams.{read_field-Reads, read_enum_field-Reads, skip_extension-Reads}
use zbc_go.Sbe.Field.Streams.{check_if-Reads, check_if-Writes, extension-same}
use zbc_go.Sbe.Signed.{IntFits, int_bytes, write_int-Writes, read_int_field-Reads}
use zbc_go.Sbe.BrokerEventMetadata.{BrokerEventMetadata, message_spec, range_check, encode, decode}

-- The ranges of the Go types.
pub record Fits (b : BrokerEventMetadata) : Type 0 where
  pub req_stream_id_fits : IntFits b.req_stream_id
  pub req_request_id_fits : b.req_request_id < 2 ^ 64
  pub raft_term_id_fits : IntFits b.raft_term_id
  pub subscription_id_fits : b.subscription_id < 2 ^ 64
  pub protocol_version_fits : b.protocol_version < 2 ^ 16
  pub event_type_fits : b.event_type < 2 ^ 8
  pub incident_key_fits : b.incident_key < 2 ^ 64

-- The block on the wire.
unfoldable pub layout : ByteOrder → BrokerEventMetadata → Bytes
layout order b =
    int_bytes order b.req_stream_id
    ++ (uint_bytes order 8 b.req_request_id
        ++ (int_bytes order b.raft_term_id
            ++ (uint_bytes order 8 b.subscription_id
                ++ (uint_bytes order 2 b.protocol_version
                    ++ (uint_bytes order 1 b.event_type ++ uint_bytes order 8 b.incident_key)))))

pub encode-Writes :
    (m : BrokerEventMetadata) (order : ByteOrder) (b : Bool)
    → (b ≡ true → range_check m 1 1 ≡ ok tt)
    → Writes (encode m order b) (layout order m)
unfolding encode layout
encode-Writes m order b passed = >>-Writes _ _ _ _ (check_if-Writes b _ passed) (
    >>-Writes _ _ _ _ (write_int-Writes order m.req_stream_id) (
      >>-Writes _ _ _ _ (write_uint-Writes order 8 m.req_request_id) (
        >>-Writes _ _ _ _ (write_int-Writes order m.raft_term_id) (
          >>-Writes _ _ _ _ (write_uint-Writes order 8 m.subscription_id) (
            >>-Writes _ _ _ _ (write_uint-Writes order 2 m.protocol_version) (
              >>-Writes _ _ _ _ (write_uint-Writes order 1 m.event_type)
                (write_uint-Writes order 8 m.incident_key)))))))

module _ (old : BrokerEventMetadata) (order : ByteOrder) (acting block : ℕ) (b : Bool) where
  -- Decode reads the block, where it takes no extension to stand behind it.
  decode-layout :
      (m : BrokerEventMetadata)
      → Fits m
      → (b ≡ true → range_check m acting 1 ≡ ok tt)
      → extension message_spec acting block ≡ 0
      → Reads (decode old order acting block b) (layout order m) m
  unfolding decode layout
  decode-layout m fits passed none =
      >>=-Reads _ (read_int_field-Reads _ order acting m.req_stream_id refl fits.req_stream_id_fits)
        (>>=-Reads _
          (read_field-Reads _ order 8 acting m.req_request_id refl fits.req_request_id_fits)
          (>>=-Reads _
            (read_int_field-Reads _ order acting m.raft_term_id refl fits.raft_term_id_fits)
            (>>=-Reads _
              (read_field-Reads _ order 8 acting m.subscription_id refl fits.subscription_id_fits)
              (>>=-Reads _
                (read_field-Reads _ order 2 acting m.protocol_version refl
                  fits.protocol_version_fits)
                (>>=-Reads _
                  (read_enum_field-Reads _ order acting old.event_type m.event_type refl
                    fits.event_type_fits)
                  (>>=-Reads_last _
                    (read_field-Reads _ order 8 acting m.incident_key refl fits.incident_key_fits)
                    (>>=-Reads_last _ (skip_extension-Reads message_spec acting block [] (sym none))
                      (>>=-Reads_last _ (check_if-Reads b _ passed) (return-Reads m)))))))))

length-layout : (order : ByteOrder) (m : BrokerEventMetadata) → length (layout order m) ≡ 35
unfolding layout int_bytes
length-layout order m = omega (arith, length-append {0}, length-uint_bytes)

extension-none : (acting block : ℕ) → block ≤ 43 → extension message_spec acting block ≡ 0
unfolding extension
extension-none acting block h = elim (Bool-cases (ltb 1 acting)) [
  | inl e ↦ rw (e, le→ltb 43 block h) refl
  | inr e ↦ rw e refl
]

module _ (m old : BrokerEventMetadata) (order : ByteOrder) (b b' : Bool) where
  -- Encode succeeds on a message whose fields fit, and Decode reads what it wrote as the same message,
  -- whatever block length it is given, whatever bytes follow and whatever its receiver held. A side
  -- that checks ranges needs that they hold.
  pub BrokerEventMetadata-decode-encode :
      (block : ℕ)
      → Fits m
      → (b ≡ true → range_check m 1 1 ≡ ok tt)
      → (b' ≡ true → range_check m 1 1 ≡ ok tt)
      → (rest : Bytes)
      → (bs : Bytes) × (encode m order b [] ≡ ok (tt, bs))
        × (decode old order 1 block b' (bs ++ rest) ≡ ok (m, rest))
  BrokerEventMetadata-decode-encode block fits written read rest = (
    layout order m,
    encode-Writes m order b written [],
    (decode-layout old order 1 block b' m fits read (extension-same message_spec block refl)).apply
        rest,
  )

  -- A newer schema that puts at most eight bytes `ext` behind the block which Encode writes: Decode
  -- leaves them in front of what follows, since the block length that it compares with is eight too
  -- large. The fields fit, and Encode makes no range check; Decode may make one that holds.
  pub BrokerEventMetadata-decode_newer :
      (acting : ℕ) (bs ext rest : Bytes)
      → Fits m
      → encode m order false [] ≡ ok (tt, bs)
      → (b' ≡ true → range_check m acting 1 ≡ ok tt)
      → length ext ≤ 8
      → decode old order acting (length bs + length ext) b' (bs ++ (ext ++ rest))
        ≡ ok (m, ext ++ rest)
  BrokerEventMetadata-decode_newer acting bs ext rest fits written read few =
      let wire : bs ≡ layout order m =
        ok-injective (sym written ∙ encode-Writes m order false (λ off. cc) []) in
      rw wire (
        (decode-layout old order acting (length (layout order m) + length ext) b' m fits read
            (extension-none acting _ (omega (arith, length-layout order m)))).apply
          (ext ++ rest))
