-- ===== src/Sbe/Signed.antt =====
-- What the generated codec of BrokerEventMetadata does for a field of type int32.
use zbc_go.Common.{
  ℕ, ℤ, pos, negsuc, lt_int, ◌-◌, ◌^◌, ◌<◌, ◌≡◌, arith, String, not, ◌||◌, ltb, lt→ltb, le→ltb,
  if◌then◌else◌,
}
use zbc_go.Wire.{Bytes, Outcome, ok, err, int_out_of_range, Stream, ◌>>=◌, return, ByteOrder}
use zbc_go.Wire.{uint_bytes, read_uint, write_uint}
use zbc_go.Wire.Streams.{
  Reads, Writes, >>=-Reads_last, return-Reads, read_uint-Reads, write_uint-Writes,
}
use zbc_go.Sbe.Field.{in_acting_version}
use zbc_go.Sbe.Field.Streams.{in_acting_version_zero}

-- The constants of the field.
pub record IntFieldSpec : Type 0 where
  pub name : String
  pub id : ℕ
  pub since_version : ℕ
  pub deprecated : ℕ
  pub meta : ℕ → String
  pub min_value : ℤ
  pub max_value : ℤ
  pub null_value : ℤ

-- The two's complement of an int32, and back.
unfoldable pub int_to_bits : ℤ → ℕ
int_to_bits (pos n) = n
int_to_bits (negsuc n) = 2 ^ 32 - 1 - n

unfoldable pub int_of_bits : ℕ → ℤ
int_of_bits v = if ltb v (2 ^ 31) then pos v else negsuc (2 ^ 32 - 1 - v)

unfoldable pub read_int_field : IntFieldSpec → ByteOrder → ℕ → Stream ℤ
unfolding int_of_bits
read_int_field f order acting_version =
    if not (in_acting_version f.since_version acting_version)
    then return f.null_value
    else (do v ← read_uint order 4; return (int_of_bits v))

unfoldable pub write_int : ByteOrder → ℤ → Stream (Unit {0})
unfolding int_to_bits
write_int order z = write_uint order 4 (int_to_bits z)

unfoldable pub check_int_field : IntFieldSpec → ℕ → ℤ → Outcome (Unit {0})
unfolding in_acting_version
check_int_field f acting_version z =
    if in_acting_version f.since_version acting_version
    then if lt_int z f.min_value || lt_int f.max_value z
      then err (int_out_of_range f.name f.min_value z f.max_value)
      else ok tt
    else ok tt

-- The range of int32.
abbrev pub IntFits : ℤ → Type 0
IntFits (pos n) = n < 2 ^ 31
IntFits (negsuc n) = n < 2 ^ 31

int_to_bits-lt : (z : ℤ) → IntFits z → int_to_bits z < 256 ^ 4
unfolding int_to_bits
int_to_bits-lt (pos n) fits = omega arith
int_to_bits-lt (negsuc n) fits = omega arith

complement_twice : (n : ℕ) → n < 2 ^ 31 → 2 ^ 32 - 1 - (2 ^ 32 - 1 - n) ≡ n
complement_twice n h = omega arith

int_of_bits-int_to_bits : (z : ℤ) → IntFits z → int_of_bits (int_to_bits z) ≡ z
unfolding int_of_bits int_to_bits
int_of_bits-int_to_bits (pos n) fits = rw (lt→ltb n (2 ^ 31) fits)
int_of_bits-int_to_bits (negsuc n) fits =
    rw (le→ltb (2 ^ 32 - 1 - n) (2 ^ 31) (omega arith), complement_twice n fits)

unfoldable pub int_bytes : ByteOrder → ℤ → Bytes
int_bytes order z = uint_bytes order 4 (int_to_bits z)

pub write_int-Writes : (order : ByteOrder) (z : ℤ) → Writes (write_int order z) (int_bytes order z)
unfolding write_int int_bytes
write_int-Writes order z = write_uint-Writes order 4 (int_to_bits z)

pub read_int_field-Reads :
    (f : IntFieldSpec) (order : ByteOrder) (acting : ℕ) (z : ℤ)
    → f.since_version ≡ 0
    → IntFits z
    → Reads (read_int_field f order acting) (int_bytes order z) z
unfolding read_int_field int_bytes
read_int_field-Reads f order acting z e fits =
    rw (in_acting_version_zero f.since_version acting e) (
      >>=-Reads_last _ (read_uint-Reads order 4 (int_to_bits z) (int_to_bits-lt z fits))
        (rw (int_of_bits-int_to_bits z fits) (return-Reads z)))
