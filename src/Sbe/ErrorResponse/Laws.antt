-- ===== src/Sbe/ErrorResponse/Laws.antt =====
-- ErrorResponse through Encode and Decode: both directions, a newer schema, and input that is cut short.
use zbc_go.Common.{
  ℕ, ◌^◌, ◌<◌, ◌≡◌, ◌≢◌, refl, sym, ◌∙◌, Bool, true, [], ◌∷◌, ◌++◌, append-nil, length, All,
}
use zbc_go.Wire.{Bytes, IsByte, ok, ByteOrder, uint_bytes}
use zbc_go.Wire.Streams.{Reads, Writes, IsLocal, Takes, >>=-Reads, >>=-Reads_last, >>=-IsLocal}
use zbc_go.Wire.Streams.{>>=-Takes, >>-Writes, return-Reads, return-IsLocal, return-Takes}
use zbc_go.Wire.Streams.{write_uint-Writes}
use zbc_go.Wire.Prefixes.{cut_short, ok-injective}
use zbc_go.Sbe.Field.{extension}
use zbc_go.Sbe.Field.Streams.{var_bytes}
use zbc_go.Sbe.Field.Streams.{read_enum_field-Reads, read_enum_field-IsLocal, read_enum_field-Takes}
use zbc_go.Sbe.Field.Streams.{read_var_field-Reads, read_var_field-IsLocal, read_var_field-Takes}
use zbc_go.Sbe.Field.Streams.{skip_extension-Reads, skip_extension-IsLocal, skip_extension-Takes}
use zbc_go.Sbe.Field.Streams.{check_if-Reads, check_if-Writes, check_if-IsLocal, check_if-Takes}
use zbc_go.Sbe.Field.Streams.{write_var-Writes, extension-same}
use zbc_go.Sbe.ErrorResponse.{ErrorResponse, message_spec, range_check, encode, decode}

-- The ranges of the Go types.
pub record Fits (e : ErrorResponse) : Type 0 where
  pub error_code_fits : e.error_code < 2 ^ 8
  pub error_data_fits : length e.error_data < 2 ^ 16
  pub failed_request_fits : length e.failed_request < 2 ^ 16

-- The message on the wire; `ext` is what a newer schema adds to the block of fixed fields.
unfoldable pub layout : ByteOrder → Bytes → ErrorResponse → Bytes
layout order ext e =
    uint_bytes order 1 e.error_code
    ++ (ext ++ (var_bytes order e.error_data ++ (var_bytes order e.failed_request)))

pub encode-Writes :
    (e : ErrorResponse) (order : ByteOrder) (b : Bool)
    → Fits e
    → (b ≡ true → range_check e 1 1 ≡ ok tt)
    → Writes (encode e order b) (layout order [] e)
unfolding encode layout
encode-Writes e order b fits passed = >>-Writes _ _ _ _ (check_if-Writes b _ passed) (
    >>-Writes _ _ _ _ (write_uint-Writes order 1 e.error_code) (
      >>-Writes _ _ _ _ (write_var-Writes order e.error_data fits.error_data_fits)
        (write_var-Writes order e.failed_request fits.failed_request_fits)))

module _ (old : ErrorResponse) (order : ByteOrder) (acting block : ℕ) (b : Bool) where
  -- Whatever the receiver held, Decode reads the layout of a message whose fields fit and pass the
  -- range check as that message, bytes of a newer schema in its block included.
  pub ErrorResponse-decode-layout :
      (e : ErrorResponse) (ext : Bytes)
      → Fits e
      → (b ≡ true → range_check e acting 1 ≡ ok tt)
      → length ext ≡ extension message_spec acting block
      → Reads (decode old order acting block b) (layout order ext e) e
  unfolding decode layout
  ErrorResponse-decode-layout e ext fits passed size =
      >>=-Reads _
        (read_enum_field-Reads _ order acting old.error_code e.error_code refl fits.error_code_fits)
        (>>=-Reads _ (skip_extension-Reads message_spec acting block ext size) (
          >>=-Reads _
            (read_var_field-Reads _ order acting old.error_data e.error_data refl
              fits.error_data_fits)
            (>>=-Reads_last _
              (read_var_field-Reads _ order acting old.failed_request e.failed_request refl
                fits.failed_request_fits)
              (>>=-Reads_last _ (check_if-Reads b _ passed) (return-Reads e)))))

  pub decode-IsLocal :
      extension message_spec acting block ≡ 0 → IsLocal (decode old order acting block b)
  unfolding decode
  decode-IsLocal known =
      >>=-IsLocal _ _ (read_enum_field-IsLocal _ order acting old.error_code refl) λ error_code.
        >>=-IsLocal _ _ (skip_extension-IsLocal message_spec acting block known) λ _.
          >>=-IsLocal _ _ (read_var_field-IsLocal _ order acting old.error_data refl) λ error_data.
            >>=-IsLocal _ _ (read_var_field-IsLocal _ order acting old.failed_request refl)
              λ failed_request. >>=-IsLocal _ _ (check_if-IsLocal b _) λ _. return-IsLocal _

  pub decode-Takes :
      extension message_spec acting block ≡ 0
      → Takes
          (decode old order acting block b)
          λ e bs. (bs ≡ layout order [] e) × Fits e × (b ≡ true → range_check e acting 1 ≡ ok tt)
  unfolding decode layout
  decode-Takes known =
      >>=-Takes _ _ _ _ (read_enum_field-Takes _ order acting old.error_code refl)
        λ error_code xs h1.
          >>=-Takes _ _ _ _ (skip_extension-Takes message_spec acting block known) λ _ xs skipped.
            >>=-Takes _ _ _ _ (read_var_field-Takes _ order acting old.error_data refl)
              λ error_data xs h2.
                >>=-Takes _ _ _ _ (read_var_field-Takes _ order acting old.failed_request refl)
                  λ failed_request xs h3. >>=-Takes _ _ _ _ (check_if-Takes b _) λ _ xs passed.
                    return-Takes _ _ (
                      rw (passed.0, append-nil, h1.0, skipped, h2.0, h3.0),
                      record {
                        error_code_fits = h1.1;
                        error_data_fits = h2.1;
                        failed_request_fits = h3.1;
                      },
                      passed.1,
                    )

module _ (e old : ErrorResponse) (order : ByteOrder) (block : ℕ) (b b' : Bool) where
  -- Encode succeeds on a message whose fields fit, and Decode reads what it wrote as the same message,
  -- whatever bytes follow and whatever its receiver held. A side that checks ranges needs that they hold.
  pub ErrorResponse-decode-encode :
      Fits e
      → (b ≡ true → range_check e 1 1 ≡ ok tt)
      → (b' ≡ true → range_check e 1 1 ≡ ok tt)
      → (rest : Bytes)
      → (bs : Bytes) × (encode e order b [] ≡ ok (tt, bs))
        × (decode old order 1 block b' (bs ++ rest) ≡ ok (e, rest))
  ErrorResponse-decode-encode fits written read rest = (
    layout order [] e,
    encode-Writes e order b fits written [],
    (ErrorResponse-decode-layout old order 1 block b' e [] fits read
          (sym (extension-same message_spec block refl))).apply
        rest,
  )

  -- Where Decode accepts a byte string at the version of the schema, Encode writes the decoded message as
  -- exactly the bytes that Decode took; with range checks, if Decode made them too.
  pub ErrorResponse-encode-decode :
      (src rest : Bytes)
      → All IsByte src
      → decode old order 1 block b' src ≡ ok (e, rest)
      → (b ≡ true → b' ≡ true)
      → (bs : Bytes) × (encode e order b [] ≡ ok (tt, bs)) × (src ≡ bs ++ rest)
  ErrorResponse-encode-decode src rest bytes h both =
      let (bs, split, _, (same, fits, passed)) =
        decode-Takes old order 1 block b' (extension-same message_spec block refl) src e rest bytes
          h in
      (bs, rw same (encode-Writes e order b fits (λ on. passed (both on)) []), split)

  -- Decode accepts no proper prefix of what Encode wrote of a message whose fields fit and pass the
  -- range check.
  pub ErrorResponse-decode_truncated :
      (front back : Bytes) (x : ℕ)
      → Fits e
      → range_check e 1 1 ≡ ok tt
      → encode e order b [] ≡ ok (tt, front ++ x ∷ back)
      → (result : ErrorResponse) (rest : Bytes)
      → decode old order 1 block b' front ≢ ok (result, rest)
  ErrorResponse-decode_truncated front back x fits passed written =
      let known = extension-same message_spec block refl in
      cut_short (decode old order 1 block b') (decode-IsLocal old order 1 block b' known)
        (ErrorResponse-decode-layout old order 1 block b' e [] fits (λ _. passed) (sym known)) front
        back x (ok-injective (sym (encode-Writes e order b fits (λ _. passed) []) ∙ written))
