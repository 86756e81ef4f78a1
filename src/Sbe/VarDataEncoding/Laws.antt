-- ===== src/Sbe/VarDataEncoding/Laws.antt =====
-- VarDataEncoding through Encode and Decode.
use zbc_go.Common.{ℕ, ◌^◌, ◌<◌, ◌≡◌, refl, [], ◌++◌, append-nil}
use zbc_go.Wire.{Bytes, ok, ByteOrder, uint_bytes}
use zbc_go.Wire.Streams.{
  Reads, Writes, Takes, IsLocal, >>=-Reads, >>=-Reads_last, >>=-Takes, >>=-IsLocal, >>-Writes,
}
use zbc_go.Wire.Streams.{return-Reads, return-Takes, return-IsLocal, write_uint-Writes}
use zbc_go.Sbe.Field.Streams.{read_field-Reads, read_field-Takes, read_field-IsLocal}
use zbc_go.Sbe.VarDataEncoding.{VarDataEncoding, encode, decode}

pub record Fits (v : VarDataEncoding) : Type 0 where
  pub length_fits : v.length < 2 ^ 16
  pub var_data_fits : v.var_data < 2 ^ 8

unfoldable pub layout : ByteOrder → VarDataEncoding → Bytes
layout order v = uint_bytes order 2 v.length ++ (uint_bytes order 1 v.var_data)

pub encode-Writes :
    (v : VarDataEncoding) (order : ByteOrder) → Writes (encode v order) (layout order v)
unfolding encode layout
encode-Writes v order =
    >>-Writes _ _ _ _ (write_uint-Writes order 2 v.length) (write_uint-Writes order 1 v.var_data)

module _ (order : ByteOrder) (acting : ℕ) where
  pub decode-Reads : (v : VarDataEncoding) → Fits v → Reads (decode order acting) (layout order v) v
  unfolding decode layout
  decode-Reads v fits =
      >>=-Reads _ (read_field-Reads _ order 2 acting v.length refl fits.length_fits) (
        >>=-Reads_last _ (read_field-Reads _ order 1 acting v.var_data refl fits.var_data_fits)
          (return-Reads v))

  pub decode-IsLocal : IsLocal (decode order acting)
  unfolding decode
  decode-IsLocal = >>=-IsLocal _ _ (read_field-IsLocal _ order 2 acting refl) λ length.
      >>=-IsLocal _ _ (read_field-IsLocal _ order 1 acting refl) λ var_data. return-IsLocal _

  pub decode-Takes : Takes (decode order acting) (λ v bs. (bs ≡ layout order v) × Fits v)
  unfolding decode layout
  decode-Takes = >>=-Takes _ _ _ _ (read_field-Takes _ order 2 acting refl) λ length xs h0.
      >>=-Takes _ _ _ _ (read_field-Takes _ order 1 acting refl) λ var_data xs h1.
        return-Takes _ _
          (rw (append-nil, h0.0, h1.0), record { length_fits = h0.1; var_data_fits = h1.1 })

-- Encode never fails, and Decode at any version reads what it wrote as the same value, whatever follows.
pub VarDataEncoding-decode-encode :
    (v : VarDataEncoding) (order : ByteOrder) (acting : ℕ) (rest : Bytes)
    → Fits v
    → (bs : Bytes) × (encode v order [] ≡ ok (tt, bs))
      × (decode order acting (bs ++ rest) ≡ ok (v, rest))
VarDataEncoding-decode-encode v order acting rest fits =
    (layout order v, encode-Writes v order [], (decode-Reads order acting v fits).apply rest)
