-- ===== src/Sbe/MessageHeader/Laws.antt =====
-- MessageHeader through Encode and Decode.
use zbc_go.Common.{ℕ, ◌^◌, ◌<◌, ◌≡◌, refl, [], ◌++◌, append-nil}
use zbc_go.Wire.{Bytes, ok, ByteOrder, uint_bytes}
use zbc_go.Wire.Streams.{
  Reads, Writes, Takes, IsLocal, >>=-Reads, >>=-Reads_last, >>=-Takes, >>=-IsLocal, >>-Writes,
}
use zbc_go.Wire.Streams.{return-Reads, return-Takes, return-IsLocal, write_uint-Writes}
use zbc_go.Sbe.Field.Streams.{read_field-Reads, read_field-Takes, read_field-IsLocal}
use zbc_go.Sbe.MessageHeader.{MessageHeader, encode, decode}

pub record Fits (m : MessageHeader) : Type 0 where
  pub block_length_fits : m.block_length < 2 ^ 16
  pub template_id_fits : m.template_id < 2 ^ 16
  pub schema_id_fits : m.schema_id < 2 ^ 16
  pub version_fits : m.version < 2 ^ 16

unfoldable pub layout : ByteOrder → MessageHeader → Bytes
layout order m =
    uint_bytes order 2 m.block_length
    ++ (uint_bytes order 2 m.template_id
        ++ (uint_bytes order 2 m.schema_id ++ (uint_bytes order 2 m.version)))

pub encode-Writes :
    (m : MessageHeader) (order : ByteOrder) → Writes (encode m order) (layout order m)
unfolding encode layout
encode-Writes m order = >>-Writes _ _ _ _ (write_uint-Writes order 2 m.block_length) (
    >>-Writes _ _ _ _ (write_uint-Writes order 2 m.template_id) (
      >>-Writes _ _ _ _ (write_uint-Writes order 2 m.schema_id)
        (write_uint-Writes order 2 m.version)))

module _ (order : ByteOrder) (acting : ℕ) where
  pub decode-Reads : (m : MessageHeader) → Fits m → Reads (decode order acting) (layout order m) m
  unfolding decode layout
  decode-Reads m fits =
      >>=-Reads _ (read_field-Reads _ order 2 acting m.block_length refl fits.block_length_fits) (
        >>=-Reads _ (read_field-Reads _ order 2 acting m.template_id refl fits.template_id_fits) (
          >>=-Reads _ (read_field-Reads _ order 2 acting m.schema_id refl fits.schema_id_fits) (
            >>=-Reads_last _ (read_field-Reads _ order 2 acting m.version refl fits.version_fits)
              (return-Reads m))))

  pub decode-IsLocal : IsLocal (decode order acting)
  unfolding decode
  decode-IsLocal = >>=-IsLocal _ _ (read_field-IsLocal _ order 2 acting refl) λ block_length.
      >>=-IsLocal _ _ (read_field-IsLocal _ order 2 acting refl) λ template_id.
        >>=-IsLocal _ _ (read_field-IsLocal _ order 2 acting refl) λ schema_id.
          >>=-IsLocal _ _ (read_field-IsLocal _ order 2 acting refl) λ version. return-IsLocal _

  pub decode-Takes : Takes (decode order acting) (λ m bs. (bs ≡ layout order m) × Fits m)
  unfolding decode layout
  decode-Takes = >>=-Takes _ _ _ _ (read_field-Takes _ order 2 acting refl) λ block_length xs h0.
      >>=-Takes _ _ _ _ (read_field-Takes _ order 2 acting refl) λ template_id xs h1.
        >>=-Takes _ _ _ _ (read_field-Takes _ order 2 acting refl) λ schema_id xs h2.
          >>=-Takes _ _ _ _ (read_field-Takes _ order 2 acting refl) λ version xs h3.
            return-Takes _ _ (
              rw (append-nil, h0.0, h1.0, h2.0, h3.0),
              record {
                block_length_fits = h0.1;
                template_id_fits = h1.1;
                schema_id_fits = h2.1;
                version_fits = h3.1;
              },
            )

-- Encode never fails, and Decode at any version reads what it wrote as the same value, whatever follows.
pub MessageHeader-decode-encode :
    (m : MessageHeader) (order : ByteOrder) (acting : ℕ) (rest : Bytes)
    → Fits m
    → (bs : Bytes) × (encode m order [] ≡ ok (tt, bs))
      × (decode order acting (bs ++ rest) ≡ ok (m, rest))
MessageHeader-decode-encode m order acting rest fits =
    (layout order m, encode-Writes m order [], (decode-Reads order acting m fits).apply rest)
