-- ===== src/Sbe/ControlMessageRequest/Laws.antt =====
-- ControlMessageRequest through Encode and Decode: both directions, a newer schema, and input that is cut short.
use zbc_go.Common.{
  ℕ, ◌^◌, ◌<◌, ◌≡◌, ◌≢◌, refl, sym, ◌∙◌, Bool, true, [], ◌∷◌, ◌++◌, append-nil, length, All,
}
use zbc_go.Wire.{Bytes, IsByte, ok, ByteOrder, uint_bytes}
use zbc_go.Wire.Streams.{Reads, Writes, IsLocal, Takes, >>=-Reads, >>=-Reads_last, >>=-IsLocal}
use zbc_go.Wire.Streams.{>>=-Takes, >>-Writes, return-Reads, return-IsLocal, return-Takes}
use zbc_go.Wire.Streams.{write_uint-Writes}
use zbc_go.Wire.Prefixes.{cut_short, ok-injective}
use zbc_go.Sbe.Field.{extension}
use zbc_go.Sbe.Field.Streams.{var_bytes}
use zbc_go.Sbe.Field.Streams.{read_enum_field-Reads, read_enum_field-IsLocal, read_enum_field-Takes}
use zbc_go.Sbe.Field.Streams.{read_var_field-Reads, read_var_field-IsLocal, read_var_field-Takes}
use zbc_go.Sbe.Field.Streams.{skip_extension-Reads, skip_extension-IsLocal, skip_extension-Takes}
use zbc_go.Sbe.Field.Streams.{check_if-Reads, check_if-Writes, check_if-IsLocal, check_if-Takes}
use zbc_go.Sbe.Field.Streams.{write_var-Writes, extension-same}
use zbc_go.Sbe.ControlMessageRequest.{
  ControlMessageRequest, message_spec, range_check, encode, decode,
}

-- The ranges of the Go types.
pub record Fits (c : ControlMessageRequest) : Type 0 where
  pub message_type_fits : c.message_type < 2 ^ 8
  pub data_bytes_fits : length c.data_bytes < 2 ^ 16

-- The message on the wire; `ext` is what a newer schema adds to the block of fixed fields.
unfoldable pub layout : ByteOrder → Bytes → ControlMessageRequest → Bytes
layout order ext c = uint_bytes order 1 c.message_type ++ (ext ++ (var_bytes order c.data_bytes))

pub encode-Writes :
    (c : ControlMessageRequest) (order : ByteOrder) (b : Bool)
    → Fits c
    → (b ≡ true → range_check c 1 1 ≡ ok tt)
    → Writes (encode c order b) (layout order [] c)
unfolding encode layout
encode-Writes c order b fits passed = >>-Writes _ _ _ _ (check_if-Writes b _ passed) (
    >>-Writes _ _ _ _ (write_uint-Writes order 1 c.message_type)
      (write_var-Writes order c.data_bytes fits.data_bytes_fits))

module _ (old : ControlMessageRequest) (order : ByteOrder) (acting block : ℕ) (b : Bool) where
  -- Whatever the receiver held, Decode reads the layout of a message whose fields fit and pass the
  -- range check as that message, bytes of a newer schema in its block included.
  pub ControlMessageRequest-decode-layout :
      (c : ControlMessageRequest) (ext : Bytes)
      → Fits c
      → (b ≡ true → range_check c acting 1 ≡ ok tt)
      → length ext ≡ extension message_spec acting block
      → Reads (decode old order acting block b) (layout order ext c) c
  unfolding decode layout
  ControlMessageRequest-decode-layout c ext fits passed size =
      >>=-Reads _
        (read_enum_field-Reads _ order acting old.message_type c.message_type refl
          fits.message_type_fits)
        (>>=-Reads _ (skip_extension-Reads message_spec acting block ext size) (
          >>=-Reads_last _
            (read_var_field-Reads _ order acting old.data_bytes c.data_bytes refl
              fits.data_bytes_fits)
            (>>=-Reads_last _ (check_if-Reads b _ passed) (return-Reads c))))

  pub decode-IsLocal :
      extension message_spec acting block ≡ 0 → IsLocal (decode old order acting block b)
  unfolding decode
  decode-IsLocal known =
      >>=-IsLocal _ _ (read_enum_field-IsLocal _ order acting old.message_type refl) λ message_type.
        >>=-IsLocal _ _ (skip_extension-IsLocal message_spec acting block known) λ _.
          >>=-IsLocal _ _ (read_var_field-IsLocal _ order acting old.data_bytes refl)
            λ data_bytes. >>=-IsLocal _ _ (check_if-IsLocal b _) λ _. return-IsLocal _

  pub decode-Takes :
      extension message_spec acting block ≡ 0
      → Takes
          (decode old order acting block b)
          λ c bs. (bs ≡ layout order [] c) × Fits c × (b ≡ true → range_check c acting 1 ≡ ok tt)
  unfolding decode layout
  decode-Takes known =
      >>=-Takes _ _ _ _ (read_enum_field-Takes _ order acting old.message_type refl)
        λ message_type xs h1.
          >>=-Takes _ _ _ _ (skip_extension-Takes message_spec acting block known) λ _ xs skipped.
            >>=-Takes _ _ _ _ (read_var_field-Takes _ order acting old.data_bytes refl)
              λ data_bytes xs h2. >>=-Takes _ _ _ _ (check_if-Takes b _) λ _ xs passed.
                return-Takes _ _ (
                  rw (passed.0, append-nil, h1.0, skipped, h2.0),
                  record { message_type_fits = h1.1; data_bytes_fits = h2.1 },
                  passed.1,
                )

module _ (c old : ControlMessageRequest) (order : ByteOrder) (block : ℕ) (b b' : Bool) where
  -- Encode succeeds on a message whose fields fit, and Decode reads what it wrote as the same message,
  -- whatever bytes follow and whatever its receiver held. A side that checks ranges needs that they hold.
  pub ControlMessageRequest-decode-encode :
      Fits c
      → (b ≡ true → range_check c 1 1 ≡ ok tt)
      → (b' ≡ true → range_check c 1 1 ≡ ok tt)
      → (rest : Bytes)
      → (bs : Bytes) × (encode c order b [] ≡ ok (tt, bs))
        × (decode old order 1 block b' (bs ++ rest) ≡ ok (c, rest))
  ControlMessageRequest-decode-encode fits written read rest = (
    layout order [] c,
    encode-Writes c order b fits written [],
    (ControlMessageRequest-decode-layout old order 1 block b' c [] fits read
          (sym (extension-same message_spec block refl))).apply
        rest,
  )

  -- Where Decode accepts a byte string at the version of the schema, Encode writes the decoded message as
  -- exactly the bytes that Decode took; with range checks, if Decode made them too.
  pub ControlMessageRequest-encode-decode :
      (src rest : Bytes)
      → All IsByte src
      → decode old order 1 block b' src ≡ ok (c, rest)
      → (b ≡ true → b' ≡ true)
      → (bs : Bytes) × (encode c order b [] ≡ ok (tt, bs)) × (src ≡ bs ++ rest)
  ControlMessageRequest-encode-decode src rest bytes h both =
      let (bs, split, _, (same, fits, passed)) =
        decode-Takes old order 1 block b' (extension-same message_spec block refl) src c rest bytes
          h in
      (bs, rw same (encode-Writes c order b fits (λ on. passed (both on)) []), split)

  -- Decode accepts no proper prefix of what Encode wrote of a message whose fields fit and pass the
  -- range check.
  pub ControlMessageRequest-decode_truncated :
      (front back : Bytes) (x : ℕ)
      → Fits c
      → range_check c 1 1 ≡ ok tt
      → encode c order b [] ≡ ok (tt, front ++ x ∷ back)
      → (result : ControlMessageRequest) (rest : Bytes)
      → decode old order 1 block b' front ≢ ok (result, rest)
  ControlMessageRequest-decode_truncated front back x fits passed written =
      let known = extension-same message_spec block refl in
      cut_short (decode old order 1 block b') (decode-IsLocal old order 1 block b' known)
        (ControlMessageRequest-decode-layout old order 1 block b' c [] fits (λ _. passed)
          (sym known))
        front back x (ok-injective (sym (encode-Writes c order b fits (λ _. passed) []) ∙ written))
