-- ===== src/Sbe/ExecuteCommandRequest/Laws.antt =====
-- ExecuteCommandRequest through Encode and Decode: both directions, a newer schema, and input that is cut short.
use zbc_go.Common.{ℕ, ◌^◌, ◌<◌, ◌≡◌, refl, Bool, true, [], ◌++◌, append-nil, length}
use zbc_go.Wire.{Bytes, ok, ByteOrder, uint_bytes}
use zbc_go.Wire.Streams.{Reads, Writes, IsLocal, Takes, >>=-Reads, >>=-Reads_last, >>=-IsLocal}
use zbc_go.Wire.Streams.{>>=-Takes, >>-Writes, return-Reads, return-IsLocal, return-Takes}
use zbc_go.Wire.Streams.{write_uint-Writes}
use zbc_go.Sbe.Field.{extension}
use zbc_go.Sbe.Field.Streams.{var_bytes, read_field-Reads, read_field-IsLocal, read_field-Takes}
use zbc_go.Sbe.Field.Streams.{read_enum_field-Reads, read_enum_field-IsLocal, read_enum_field-Takes}
use zbc_go.Sbe.Field.Streams.{read_var_field-Reads, read_var_field-IsLocal, read_var_field-Takes}
use zbc_go.Sbe.Field.Streams.{skip_extension-Reads, skip_extension-IsLocal, skip_extension-Takes}
use zbc_go.Sbe.Field.Streams.{check_if-Reads, check_if-Writes, check_if-IsLocal, check_if-Takes}
use zbc_go.Sbe.Field.Streams.{write_var-Writes}
use zbc_go.Sbe.ExecuteCommandRequest.{
  ExecuteCommandRequest, message_spec, range_check, encode, decode,
}

-- The ranges of the Go types.
pub record Fits (e : ExecuteCommandRequest) : Type 0 where
  pub partition_id_fits : e.partition_id < 2 ^ 16
  pub position_fits : e.position < 2 ^ 64
  pub key_fits : e.key < 2 ^ 64
  pub event_type_fits : e.event_type < 2 ^ 8
  pub topic_name_fits : length e.topic_name < 2 ^ 16
  pub command_fits : length e.command < 2 ^ 16

-- The message on the wire; `ext` is what a newer schema adds to the block of fixed fields.
unfoldable pub layout : ByteOrder → Bytes → ExecuteCommandRequest → Bytes
layout order ext e =
    uint_bytes order 2 e.partition_id
    ++ (uint_bytes order 8 e.position
        ++ (uint_bytes order 8 e.key
            ++ (uint_bytes order 1 e.event_type
                ++ (ext ++ (var_bytes order e.topic_name ++ (var_bytes order e.command))))))

-- What Decode takes for a message: it passes over no Position.
unfoldable pub read_layout : ByteOrder → Bytes → ExecuteCommandRequest → Bytes
read_layout order ext e =
    uint_bytes order 2 e.partition_id
    ++ (uint_bytes order 8 e.key
        ++ (uint_bytes order 1 e.event_type
            ++ (ext ++ (var_bytes order e.topic_name ++ (var_bytes order e.command)))))

pub encode-Writes :
    (e : ExecuteCommandRequest) (order : ByteOrder) (b : Bool)
    → Fits e
    → (b ≡ true → range_check e 1 1 ≡ ok tt)
    → Writes (encode e order b) (layout order [] e)
unfolding encode layout
encode-Writes e order b fits passed = >>-Writes _ _ _ _ (check_if-Writes b _ passed) (
    >>-Writes _ _ _ _ (write_uint-Writes order 2 e.partition_id) (
      >>-Writes _ _ _ _ (write_uint-Writes order 8 e.position) (
        >>-Writes _ _ _ _ (write_uint-Writes order 8 e.key) (
          >>-Writes _ _ _ _ (write_uint-Writes order 1 e.event_type) (
            >>-Writes _ _ _ _ (write_var-Writes order e.topic_name fits.topic_name_fits)
              (write_var-Writes order e.command fits.command_fits))))))

module _ (old : ExecuteCommandRequest) (order : ByteOrder) (acting block : ℕ) (b : Bool) where
  -- Decode reads the layout without Position as the message, and keeps the receiver's Position. The
  -- fields fit, the extension is as long as the block length says, and where Decode checks ranges, they
  -- hold of its result.
  pub ExecuteCommandRequest-decode-layout :
      (e : ExecuteCommandRequest) (ext : Bytes)
      → Fits e
      → (b ≡ true → range_check (record e { position = old.position }) acting 1 ≡ ok tt)
      → length ext ≡ extension message_spec acting block
      → Reads
          (decode old order acting block b)
          (read_layout order ext e)
          (record e { position = old.position })
  unfolding decode read_layout
  ExecuteCommandRequest-decode-layout e ext fits passed size =
      >>=-Reads _ (read_field-Reads _ order 2 acting e.partition_id refl fits.partition_id_fits) (
        >>=-Reads _ (read_field-Reads _ order 8 acting e.key refl fits.key_fits) (
          >>=-Reads _
            (read_enum_field-Reads _ order acting old.event_type e.event_type refl
              fits.event_type_fits)
            (>>=-Reads _ (skip_extension-Reads message_spec acting block ext size) (
              >>=-Reads _
                (read_var_field-Reads _ order acting old.topic_name e.topic_name refl
                  fits.topic_name_fits)
                (>>=-Reads_last _
                  (read_var_field-Reads _ order acting old.command e.command refl fits.command_fits)
                  (>>=-Reads_last _ (check_if-Reads b _ passed)
                    (return-Reads (record e { position = old.position }))))))))

  pub decode-IsLocal :
      extension message_spec acting block ≡ 0 → IsLocal (decode old order acting block b)
  unfolding decode
  decode-IsLocal known = >>=-IsLocal _ _ (read_field-IsLocal _ order 2 acting refl) λ partition_id.
      >>=-IsLocal _ _ (read_field-IsLocal _ order 8 acting refl) λ key.
        >>=-IsLocal _ _ (read_enum_field-IsLocal _ order acting old.event_type refl) λ event_type.
          >>=-IsLocal _ _ (skip_extension-IsLocal message_spec acting block known) λ _.
            >>=-IsLocal _ _ (read_var_field-IsLocal _ order acting old.topic_name refl)
              λ topic_name.
                >>=-IsLocal _ _ (read_var_field-IsLocal _ order acting old.command refl)
                  λ command. >>=-IsLocal _ _ (check_if-IsLocal b _) λ _. return-IsLocal _

  pub decode-Takes :
      extension message_spec acting block ≡ 0
      → Takes (decode old order acting block b) λ e bs.
        (bs ≡ read_layout order [] e)
        × (e.position ≡ old.position)
        × (e.partition_id < 2 ^ 16)
        × (e.key < 2 ^ 64)
        × (b ≡ true → range_check e acting 1 ≡ ok tt)
  unfolding decode read_layout
  decode-Takes known =
      >>=-Takes _ _ _ _ (read_field-Takes _ order 2 acting refl) λ partition_id xs h1.
        >>=-Takes _ _ _ _ (read_field-Takes _ order 8 acting refl) λ key xs h2.
          >>=-Takes _ _ _ _ (read_enum_field-Takes _ order acting old.event_type refl)
            λ event_type xs h3.
              >>=-Takes _ _ _ _ (skip_extension-Takes message_spec acting block known)
                λ _ xs skipped.
                  >>=-Takes _ _ _ _ (read_var_field-Takes _ order acting old.topic_name refl)
                    λ topic_name xs h4.
                      >>=-Takes _ _ _ _ (read_var_field-Takes _ order acting old.command refl)
                        λ command xs h5. >>=-Takes _ _ _ _ (check_if-Takes b _) λ _ xs passed.
                          return-Takes _ _ (
                            rw (passed.0, append-nil, h1.0, h2.0, h3.0, skipped, h4.0, h5.0),
                            refl,
                            h1.1,
                            h2.1,
                            passed.1,
                          )
