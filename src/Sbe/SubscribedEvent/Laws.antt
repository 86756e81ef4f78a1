-- ===== src/Sbe/SubscribedEvent/Laws.antt =====
-- SubscribedEvent through Encode and Decode: both directions, a newer schema, and input that is cut short.
use zbc_go.Common.{
  ℕ, ◌^◌, ◌<◌, ◌≡◌, ◌≢◌, refl, sym, ◌∙◌, Bool, true, [], ◌∷◌, ◌++◌, append-nil, length, All,
}
use zbc_go.Wire.{Bytes, IsByte, ok, ByteOrder, uint_bytes}
use zbc_go.Wire.Streams.{Reads, Writes, IsLocal, Takes, >>=-Reads, >>=-Reads_last, >>=-IsLocal}
use zbc_go.Wire.Streams.{>>=-Takes, >>-Writes, return-Reads, return-IsLocal, return-Takes}
use zbc_go.Wire.Streams.{write_uint-Writes}
use zbc_go.Wire.Prefixes.{cut_short, ok-injective}
use zbc_go.Sbe.Field.{extension}
use zbc_go.Sbe.Field.Streams.{var_bytes, read_field-Reads, read_field-IsLocal, read_field-Takes}
use zbc_go.Sbe.Field.Streams.{read_enum_field-Reads, read_enum_field-IsLocal, read_enum_field-Takes}
use zbc_go.Sbe.Field.Streams.{read_var_field-Reads, read_var_field-IsLocal, read_var_field-Takes}
use zbc_go.Sbe.Field.Streams.{skip_extension-Reads, skip_extension-IsLocal, skip_extension-Takes}
use zbc_go.Sbe.Field.Streams.{check_if-Reads, check_if-Writes, check_if-IsLocal, check_if-Takes}
use zbc_go.Sbe.Field.Streams.{write_var-Writes, extension-same}
use zbc_go.Sbe.SubscribedEvent.{SubscribedEvent, message_spec, range_check, encode, decode}

-- The ranges of the Go types.
pub record Fits (s : SubscribedEvent) : Type 0 where
  pub partition_id_fits : s.partition_id < 2 ^ 16
  pub position_fits : s.position < 2 ^ 64
  pub key_fits : s.key < 2 ^ 64
  pub subscriber_key_fits : s.subscriber_key < 2 ^ 64
  pub subscription_type_fits : s.subscription_type < 2 ^ 8
  pub event_type_fits : s.event_type < 2 ^ 8
  pub topic_name_fits : length s.topic_name < 2 ^ 16
  pub event_fits : length s.event < 2 ^ 16

-- The message on the wire; `ext` is what a newer schema adds to the block of fixed fields.
unfoldable pub layout : ByteOrder → Bytes → SubscribedEvent → Bytes
layout order ext s =
    uint_bytes order 2 s.partition_id
    ++ (uint_bytes order 8 s.position
        ++ (uint_bytes order 8 s.key
            ++ (uint_bytes order 8 s.subscriber_key
                ++ (uint_bytes order 1 s.subscription_type
                    ++ (uint_bytes order 1 s.event_type
                        ++ (ext ++ (var_bytes order s.topic_name ++ (var_bytes order s.event))))))))

pub encode-Writes :
    (s : SubscribedEvent) (order : ByteOrder) (b : Bool)
    → Fits s
    → (b ≡ true → range_check s 1 1 ≡ ok tt)
    → Writes (encode s order b) (layout order [] s)
unfolding encode layout
encode-Writes s order b fits passed = >>-Writes _ _ _ _ (check_if-Writes b _ passed) (
    >>-Writes _ _ _ _ (write_uint-Writes order 2 s.partition_id) (
      >>-Writes _ _ _ _ (write_uint-Writes order 8 s.position) (
        >>-Writes _ _ _ _ (write_uint-Writes order 8 s.key) (
          >>-Writes _ _ _ _ (write_uint-Writes order 8 s.subscriber_key) (
            >>-Writes _ _ _ _ (write_uint-Writes order 1 s.subscription_type) (
              >>-Writes _ _ _ _ (write_uint-Writes order 1 s.event_type) (
                >>-Writes _ _ _ _ (write_var-Writes order s.topic_name fits.topic_name_fits)
                  (write_var-Writes order s.event fits.event_fits))))))))

module _ (old : SubscribedEvent) (order : ByteOrder) (acting block : ℕ) (b : Bool) where
  -- Whatever the receiver held, Decode reads the layout of a message whose fields fit and pass the
  -- range check as that message, bytes of a newer schema in its block included.
  pub SubscribedEvent-decode-layout :
      (s : SubscribedEvent) (ext : Bytes)
      → Fits s
      → (b ≡ true → range_check s acting 1 ≡ ok tt)
      → length ext ≡ extension message_spec acting block
      → Reads (decode old order acting block b) (layout order ext s) s
  unfolding decode layout
  SubscribedEvent-decode-layout s ext fits passed size =
      >>=-Reads _ (read_field-Reads _ order 2 acting s.partition_id refl fits.partition_id_fits) (
        >>=-Reads _ (read_field-Reads _ order 8 acting s.position refl fits.position_fits) (
          >>=-Reads _ (read_field-Reads _ order 8 acting s.key refl fits.key_fits) (
            >>=-Reads _
              (read_field-Reads _ order 8 acting s.subscriber_key refl fits.subscriber_key_fits)
              (>>=-Reads _
                (read_enum_field-Reads _ order acting old.subscription_type s.subscription_type refl
                  fits.subscription_type_fits)
                (>>=-Reads _
                  (read_enum_field-Reads _ order acting old.event_type s.event_type refl
                    fits.event_type_fits)
                  (>>=-Reads _ (skip_extension-Reads message_spec acting block ext size) (
                    >>=-Reads _
                      (read_var_field-Reads _ order acting old.topic_name s.topic_name refl
                        fits.topic_name_fits)
                      (>>=-Reads_last _
                        (read_var_field-Reads _ order acting old.event s.event refl fits.event_fits)
                        (>>=-Reads_last _ (check_if-Reads b _ passed) (return-Reads s))))))))))

  pub decode-IsLocal :
      extension message_spec acting block ≡ 0 → IsLocal (decode old order acting block b)
  unfolding decode
  decode-IsLocal known = >>=-IsLocal _ _ (read_field-IsLocal _ order 2 acting refl) λ partition_id.
      >>=-IsLocal _ _ (read_field-IsLocal _ order 8 acting refl) λ position.
        >>=-IsLocal _ _ (read_field-IsLocal _ order 8 acting refl) λ key.
          >>=-IsLocal _ _ (read_field-IsLocal _ order 8 acting refl) λ subscriber_key.
            >>=-IsLocal _ _ (read_enum_field-IsLocal _ order acting old.subscription_type refl)
              λ subscription_type.
                >>=-IsLocal _ _ (read_enum_field-IsLocal _ order acting old.event_type refl)
                  λ event_type.
                    >>=-IsLocal _ _ (skip_extension-IsLocal message_spec acting block known) λ _.
                      >>=-IsLocal _ _ (read_var_field-IsLocal _ order acting old.topic_name refl)
                        λ topic_name.
                          >>=-IsLocal _ _ (read_var_field-IsLocal _ order acting old.event refl)
                            λ event. >>=-IsLocal _ _ (check_if-IsLocal b _) λ _. return-IsLocal _

  pub decode-Takes :
      extension message_spec acting block ≡ 0
      → Takes
          (decode old order acting block b)
          λ s bs. (bs ≡ layout order [] s) × Fits s × (b ≡ true → range_check s acting 1 ≡ ok tt)
  unfolding decode layout
  decode-Takes known =
      >>=-Takes _ _ _ _ (read_field-Takes _ order 2 acting refl) λ partition_id xs h1.
        >>=-Takes _ _ _ _ (read_field-Takes _ order 8 acting refl) λ position xs h2.
          >>=-Takes _ _ _ _ (read_field-Takes _ order 8 acting refl) λ key xs h3.
            >>=-Takes _ _ _ _ (read_field-Takes _ order 8 acting refl) λ subscriber_key xs h4.
              >>=-Takes _ _ _ _ (read_enum_field-Takes _ order acting old.subscription_type refl)
                λ subscription_type xs h5.
                  >>=-Takes _ _ _ _ (read_enum_field-Takes _ order acting old.event_type refl)
                    λ event_type xs h6.
                      >>=-Takes _ _ _ _ (skip_extension-Takes message_spec acting block known)
                        λ _ xs skipped.
                          >>=-Takes _ _ _ _
                            (read_var_field-Takes _ order acting old.topic_name refl)
                            λ topic_name xs h7.
                              >>=-Takes _ _ _ _ (read_var_field-Takes _ order acting old.event refl)
                                λ event xs h8. >>=-Takes _ _ _ _ (check_if-Takes b _) λ _ xs passed.
                                  return-Takes _ _ (
                                    rw (
                                      passed.0, append-nil, h1.0, h2.0, h3.0, h4.0, h5.0, h6.0,
                                      skipped, h7.0, h8.0,
                                    ),
                                    record {
                                      partition_id_fits = h1.1;
                                      position_fits = h2.1;
                                      key_fits = h3.1;
                                      subscriber_key_fits = h4.1;
                                      subscription_type_fits = h5.1;
                                      event_type_fits = h6.1;
                                      topic_name_fits = h7.1;
                                      event_fits = h8.1;
                                    },
                                    passed.1,
                                  )

module _ (s old : SubscribedEvent) (order : ByteOrder) (block : ℕ) (b b' : Bool) where
  -- Encode succeeds on a message whose fields fit, and Decode reads what it wrote as the same message,
  -- whatever bytes follow and whatever its receiver held. A side that checks ranges needs that they hold.
  pub SubscribedEvent-decode-encode :
      Fits s
      → (b ≡ true → range_check s 1 1 ≡ ok tt)
      → (b' ≡ true → range_check s 1 1 ≡ ok tt)
      → (rest : Bytes)
      → (bs : Bytes) × (encode s order b [] ≡ ok (tt, bs))
        × (decode old order 1 block b' (bs ++ rest) ≡ ok (s, rest))
  SubscribedEvent-decode-encode fits written read rest = (
    layout order [] s,
    encode-Writes s order b fits written [],
    (SubscribedEvent-decode-layout old order 1 block b' s [] fits read
          (sym (extension-same message_spec block refl))).apply
        rest,
  )

  -- Where Decode accepts a byte string at the version of the schema, Encode writes the decoded message as
  -- exactly the bytes that Decode took; with range checks, if Decode made them too.
  pub SubscribedEvent-encode-decode :
      (src rest : Bytes)
      → All IsByte src
      → decode old order 1 block b' src ≡ ok (s, rest)
      → (b ≡ true → b' ≡ true)
      → (bs : Bytes) × (encode s order b [] ≡ ok (tt, bs)) × (src ≡ bs ++ rest)
  SubscribedEvent-encode-decode src rest bytes h both =
      let (bs, split, _, (same, fits, passed)) =
        decode-Takes old order 1 block b' (extension-same message_spec block refl) src s rest bytes
          h in
      (bs, rw same (encode-Writes s order b fits (λ on. passed (both on)) []), split)

  -- Decode accepts no proper prefix of what Encode wrote of a message whose fields fit and pass the
  -- range check.
  pub SubscribedEvent-decode_truncated :
      (front back : Bytes) (x : ℕ)
      → Fits s
      → range_check s 1 1 ≡ ok tt
      → encode s order b [] ≡ ok (tt, front ++ x ∷ back)
      → (result : SubscribedEvent) (rest : Bytes)
      → decode old order 1 block b' front ≢ ok (result, rest)
  SubscribedEvent-decode_truncated front back x fits passed written =
      let known = extension-same message_spec block refl in
      cut_short (decode old order 1 block b') (decode-IsLocal old order 1 block b' known)
        (SubscribedEvent-decode-layout old order 1 block b' s [] fits (λ _. passed) (sym known))
        front back x (ok-injective (sym (encode-Writes s order b fits (λ _. passed) []) ∙ written))
