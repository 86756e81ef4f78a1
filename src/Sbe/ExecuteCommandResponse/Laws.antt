-- ===== src/Sbe/ExecuteCommandResponse/Laws.antt =====
-- ExecuteCommandResponse through Encode and Decode: both directions, a newer schema, and input that is cut short.
use zbc_go.Common.{
  ℕ, ◌^◌, ◌<◌, ◌≡◌, ◌≢◌, refl, sym, ◌∙◌, Bool, true, [], ◌∷◌, ◌++◌, append-nil, length, All,
}
use zbc_go.Wire.{Bytes, IsByte, ok, ByteOrder, uint_bytes}
use zbc_go.Wire.Streams.{Reads, Writes, IsLocal, Takes, >>=-Reads, >>=-Reads_last, >>=-IsLocal}
use zbc_go.Wire.Streams.{>>=-Takes, >>-Writes, return-Reads, return-IsLocal, return-Takes}
use zbc_go.Wire.Streams.{write_uint-Writes}
use zbc_go.Wire.Prefixes.{cut_short, ok-injective}
use zbc_go.Sbe.Field.{extension}
use zbc_go.Sbe.Field.Streams.{var_bytes, read_field-Reads, read_field-IsLocal, read_field-Takes}
use zbc_go.Sbe.Field.Streams.{read_var_field-Reads, read_var_field-IsLocal, read_var_field-Takes}
use zbc_go.Sbe.Field.Streams.{skip_extension-Reads, skip_extension-IsLocal, skip_extension-Takes}
use zbc_go.Sbe.Field.Streams.{check_if-Reads, check_if-Writes, check_if-IsLocal, check_if-Takes}
use zbc_go.Sbe.Field.Streams.{write_var-Writes, extension-same}
use zbc_go.Sbe.ExecuteCommandResponse.{
  ExecuteCommandResponse, message_spec, range_check, encode, decode,
}

-- The ranges of the Go types.
pub record Fits (e : ExecuteCommandResponse) : Type 0 where
  pub partition_id_fits : e.partition_id < 2 ^ 16
  pub position_fits : e.position < 2 ^ 64
  pub key_fits : e.key < 2 ^ 64
  pub topic_name_fits : length e.topic_name < 2 ^ 16
  pub event_fits : length e.event < 2 ^ 16

-- The message on the wire; `ext` is what a newer schema adds to the block of fixed fields.
unfoldable pub layout : ByteOrder → Bytes → ExecuteCommandResponse → Bytes
layout order ext e =
    uint_bytes order 2 e.partition_id
    ++ (uint_bytes order 8 e.position
        ++ (uint_bytes order 8 e.key
            ++ (ext ++ (var_bytes order e.topic_name ++ (var_bytes order e.event)))))

pub encode-Writes :
    (e : ExecuteCommandResponse) (order : ByteOrder) (b : Bool)
    → Fits e
    → (b ≡ true → range_check e 1 1 ≡ ok tt)
    → Writes (encode e order b) (layout order [] e)
unfolding encode layout
encode-Writes e order b fits passed = >>-Writes _ _ _ _ (check_if-Writes b _ passed) (
    >>-Writes _ _ _ _ (write_uint-Writes order 2 e.partition_id) (
      >>-Writes _ _ _ _ (write_uint-Writes order 8 e.position) (
        >>-Writes _ _ _ _ (write_uint-Writes order 8 e.key) (
          >>-Writes _ _ _ _ (write_var-Writes order e.topic_name fits.topic_name_fits)
            (write_var-Writes order e.event fits.event_fits)))))

module _ (old : ExecuteCommandResponse) (order : ByteOrder) (acting block : ℕ) (b : Bool) where
  -- Whatever the receiver held, Decode reads the layout of a message whose fields fit and pass the
  -- range check as that message, bytes of a newer schema in its block included.
  pub ExecuteCommandResponse-decode-layout :
      (e : ExecuteCommandResponse) (ext : Bytes)
      → Fits e
      → (b ≡ true → range_check e acting 1 ≡ ok tt)
      → length ext ≡ extension message_spec acting block
      → Reads (decode old order acting block b) (layout order ext e) e
  unfolding decode layout
  ExecuteCommandResponse-decode-layout e ext fits passed size =
      >>=-Reads _ (read_field-Reads _ order 2 acting e.partition_id refl fits.partition_id_fits) (
        >>=-Reads _ (read_field-Reads _ order 8 acting e.position refl fits.position_fits) (
          >>=-Reads _ (read_field-Reads _ order 8 acting e.key refl fits.key_fits) (
            >>=-Reads _ (skip_extension-Reads message_spec acting block ext size) (
              >>=-Reads _
                (read_var_field-Reads _ order acting old.topic_name e.topic_name refl
                  fits.topic_name_fits)
                (>>=-Reads_last _
                  (read_var_field-Reads _ order acting old.event e.event refl fits.event_fits)
                  (>>=-Reads_last _ (check_if-Reads b _ passed) (return-Reads e)))))))

  pub decode-IsLocal :
      extension message_spec acting block ≡ 0 → IsLocal (decode old order acting block b)
  unfolding decode
  decode-IsLocal known = >>=-IsLocal _ _ (read_field-IsLocal _ order 2 acting refl) λ partition_id.
      >>=-IsLocal _ _ (read_field-IsLocal _ order 8 acting refl) λ position.
        >>=-IsLocal _ _ (read_field-IsLocal _ order 8 acting refl) λ key.
          >>=-IsLocal _ _ (skip_extension-IsLocal message_spec acting block known) λ _.
            >>=-IsLocal _ _ (read_var_field-IsLocal _ order acting old.topic_name refl)
              λ topic_name.
                >>=-IsLocal _ _ (read_var_field-IsLocal _ order acting old.event refl)
                  λ event. >>=-IsLocal _ _ (check_if-IsLocal b _) λ _. return-IsLocal _

  pub decode-Takes :
      extension message_spec acting block ≡ 0
      → Takes
          (decode old order acting block b)
          λ e bs. (bs ≡ layout order [] e) × Fits e × (b ≡ true → range_check e acting 1 ≡ ok tt)
  unfolding decode layout
  decode-Takes known =
      >>=-Takes _ _ _ _ (read_field-Takes _ order 2 acting refl) λ partition_id xs h1.
        >>=-Takes _ _ _ _ (read_field-Takes _ order 8 acting refl) λ position xs h2.
          >>=-Takes _ _ _ _ (read_field-Takes _ order 8 acting refl) λ key xs h3.
            >>=-Takes _ _ _ _ (skip_extension-Takes message_spec acting block known) λ _ xs skipped.
              >>=-Takes _ _ _ _ (read_var_field-Takes _ order acting old.topic_name refl)
                λ topic_name xs h4.
                  >>=-Takes _ _ _ _ (read_var_field-Takes _ order acting old.event refl)
                    λ event xs h5. >>=-Takes _ _ _ _ (check_if-Takes b _) λ _ xs passed.
                      return-Takes _ _ (
                        rw (passed.0, append-nil, h1.0, h2.0, h3.0, skipped, h4.0, h5.0),
                        record {
                          partition_id_fits = h1.1;
                          position_fits = h2.1;
                          key_fits = h3.1;
                          topic_name_fits = h4.1;
                          event_fits = h5.1;
                        },
                        passed.1,
                      )

module _ (e old : ExecuteCommandResponse) (order : ByteOrder) (block : ℕ) (b b' : Bool) where
  -- Encode succeeds on a message whose fields fit, and Decode reads what it wrote as the same message,
  -- whatever bytes follow and whatever its receiver held. A side that checks ranges needs that they hold.
  pub ExecuteCommandResponse-decode-encode :
      Fits e
      → (b ≡ true → range_check e 1 1 ≡ ok tt)
      → (b' ≡ true → range_check e 1 1 ≡ ok tt)
      → (rest : Bytes)
      → (bs : Bytes) × (encode e order b [] ≡ ok (tt, bs))
        × (decode old order 1 block b' (bs ++ rest) ≡ ok (e, rest))
  ExecuteCommandResponse-decode-encode fits written read rest = (
    layout order [] e,
    encode-Writes e order b fits written [],
    (ExecuteCommandResponse-decode-layout old order 1 block b' e [] fits read
          (sym (extension-same message_spec block refl))).apply
        rest,
  )

  -- Where Decode accepts a byte string at the version of the schema, Encode writes the decoded message as
  -- exactly the bytes that Decode took; with range checks, if Decode made them too.
  pub ExecuteCommandResponse-encode-decode :
      (src rest : Bytes)
      → All IsByte src
      → decode old order 1 block b' src ≡ ok (e, rest)
      → (b ≡ true → b' ≡ true)
      → (bs : Bytes) × (encode e order b [] ≡ ok (tt, bs)) × (src ≡ bs ++ rest)
  ExecuteCommandResponse-encode-decode src rest bytes h both =
      let (bs, split, _, (same, fits, passed)) =
        decode-Takes old order 1 block b' (extension-same message_spec block refl) src e rest bytes
          h in
      (bs, rw same (encode-Writes e order b fits (λ on. passed (both on)) []), split)

  -- Decode accepts no proper prefix of what Encode wrote of a message whose fields fit and pass the
  -- range check.
  pub ExecuteCommandResponse-decode_truncated :
      (front back : Bytes) (x : ℕ)
      → Fits e
      → range_check e 1 1 ≡ ok tt
      → encode e order b [] ≡ ok (tt, front ++ x ∷ back)
      → (result : ExecuteCommandResponse) (rest : Bytes)
      → decode old order 1 block b' front ≢ ok (result, rest)
  ExecuteCommandResponse-decode_truncated front back x fits passed written =
      let known = extension-same message_spec block refl in
      cut_short (decode old order 1 block b') (decode-IsLocal old order 1 block b' known)
        (ExecuteCommandResponse-decode-layout old order 1 block b' e [] fits (λ _. passed)
          (sym known))
        front back x (ok-injective (sym (encode-Writes e order b fits (λ _. passed) []) ∙ written))
