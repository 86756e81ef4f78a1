-- ===== src/Sbe/Field.antt =====
-- What the generated codecs do for one field: version tests, null values, range checks, the
-- length in front of variable data, and the block extension of a newer schema.
pub mod Streams
pub mod Checks
use zbc_go.Common.{ℕ, ◌-◌, ◌%◌, ◌^◌, String, Bool, true, false, not, ◌&&◌, ◌||◌, Option, List, []}
use zbc_go.Common.{◌∷◌, ltb, leb, ◌==◌, if◌then◌else◌, length}
use zbc_go.Wire.{Bytes, Outcome, ok, err, out_of_range, unknown_value, invalid_utf8}
use zbc_go.Wire.{Stream, ◌>>=◌, ◌>>◌, return, check, ByteOrder, read_full, read_uint, discard}
use zbc_go.Wire.{write_bytes, write_uint}
use zbc_go.Sbe.Utf8.{valid}

-- The constants of an integer field; `none` where the type lacks the accessor.
pub record FieldSpec : Type 0 where
  pub name : String
  pub id : Option ℕ
  pub since_version : ℕ
  pub deprecated : Option ℕ
  pub meta : Option (ℕ → String)
  pub min_value : ℕ
  pub max_value : ℕ
  pub null_value : ℕ

-- The constants of an enumeration field.
pub record EnumFieldSpec : Type 0 where
  pub id : ℕ
  pub since_version : ℕ
  pub deprecated : ℕ
  pub meta : ℕ → String

-- The constants of a variable-length field.
pub record VarFieldSpec : Type 0 where
  pub name : String
  pub since_version : ℕ
  pub deprecated : ℕ
  pub meta : ℕ → String
  pub character_encoding : String
  pub header_length : ℕ

-- The constants of an enumeration type: its values in the order of the Go struct, `NullValue` last.
pub record EnumSpec : Type 0 where
  pub name : String
  pub values : List (String × ℕ)

-- The constants of a message type.
pub record MessageSpec : Type 0 where
  pub block_length : ℕ
  pub template_id : ℕ
  pub schema_id : ℕ
  pub schema_version : ℕ
  pub semantic_type : Bytes

-- Every …MetaAttribute method.
unfoldable pub meta_attribute : ℕ → String
meta_attribute meta = if meta == 1 then "unix" else if meta == 2 then "nanosecond" else ""

unfoldable pub in_acting_version : ℕ → ℕ → Bool
in_acting_version since_version acting_version = leb since_version acting_version

-- One integer field of Decode, `w` bytes wide.
unfoldable pub read_field : FieldSpec → ByteOrder → ℕ → ℕ → Stream ℕ
unfolding in_acting_version
read_field f order w acting_version =
    if not (in_acting_version f.since_version acting_version)
    then return f.null_value
    else read_uint order w

-- One enumeration field of Decode; the receiver keeps its `old` value in an earlier version.
unfoldable pub read_enum_field : EnumFieldSpec → ByteOrder → ℕ → ℕ → Stream ℕ
unfolding in_acting_version
read_enum_field f order acting_version old =
    if in_acting_version f.since_version acting_version then read_uint order 1 else return old

read_var : ByteOrder → Stream Bytes
read_var order = do n ← read_uint order 2; read_full n

-- One variable-length field of Decode: a length of two bytes, then as many bytes.
unfoldable pub read_var_field : VarFieldSpec → ByteOrder → ℕ → Bytes → Stream Bytes
unfolding in_acting_version read_var
read_var_field f order acting_version old =
    if in_acting_version f.since_version acting_version then read_var order else return old

-- One variable-length field of Encode: `uint16(len(bs))`, then the bytes.
unfoldable pub write_var : ByteOrder → Bytes → Stream (Unit {0})
write_var order bs = do write_uint order 2 (length bs % 2 ^ 16); write_bytes bs

-- The bytes that a newer schema has put behind the fixed fields.
unfoldable pub extension : MessageSpec → ℕ → ℕ → ℕ
extension m acting_version block_length =
    if ltb m.schema_version acting_version && ltb m.block_length block_length
    then block_length - m.block_length
    else 0

unfoldable pub skip_extension : MessageSpec → ℕ → ℕ → Stream (Unit {0})
skip_extension m acting_version block_length =
    if ltb m.schema_version acting_version && ltb m.block_length block_length
    then discard (block_length - m.block_length)
    else return tt

-- `if doRangeCheck { if err := RangeCheck(…); err != nil { return err } }`
abbrev pub check_if : Bool → Outcome (Unit {0}) → Stream (Unit {0})
check_if do_range_check result = check (if do_range_check then result else ok tt)

-- The checks of a RangeCheck method, in order: the first error counts.
abbrev pub all_checks : List (Outcome (Unit {0})) → Outcome (Unit {0})
all_checks [] = ok tt
all_checks (c ∷ cs) =
    let rest = all_checks cs in
    elim c [ ok _ ↦ rest | err e ↦ err e | Outcome.panic p ↦ Outcome.panic p ]

unfoldable pub check_field : FieldSpec → ℕ → ℕ → Outcome (Unit {0})
unfolding in_acting_version
check_field f acting_version v =
    if in_acting_version f.since_version acting_version
    then if ltb v f.min_value || ltb f.max_value v
      then err (out_of_range f.name f.min_value v f.max_value)
      else ok tt
    else ok tt

unfoldable pub has_value : List (String × ℕ) → ℕ → Bool
has_value [] v = false
has_value ((_, x) ∷ xs) v = v == x || has_value xs v

-- RangeCheck of an enumeration type.
unfoldable pub check_enum : EnumSpec → ℕ → ℕ → ℕ → Outcome (Unit {0})
unfolding has_value
check_enum s acting_version schema_version v =
    if ltb schema_version acting_version
    then ok tt
    else if has_value s.values v
    then ok tt
    else err (unknown_value s.name v)

-- `if !utf8.Valid(bs) { return … }`
unfoldable pub check_utf8 : String → Bytes → Outcome (Unit {0})
unfolding valid
check_utf8 name bs = if not (valid bs) then err (invalid_utf8 name) else ok tt
