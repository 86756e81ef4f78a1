-- ===== src/Sbe/VarDataEncoding.antt =====
-- zbc/sbe/VarDataEncoding.go
pub mod Laws
use zbc_go.Common.{ℕ, ◌-◌, ◌^◌, some, none, [], ◌∷◌}
use zbc_go.Wire.{Outcome, Stream, ◌>>=◌, ◌>>◌, return, ByteOrder, write_uint}
use zbc_go.Sbe.Field.{FieldSpec, read_field, all_checks, check_field}

pub record VarDataEncoding : Type 0 where
  pub length : ℕ
  pub var_data : ℕ

abbrev pub length_field : FieldSpec
length_field = record {
  name = "v.Length";
  id = none;
  since_version = 0;
  deprecated = some 0;
  meta = none;
  min_value = 0;
  max_value = 2 ^ 16 - 2;
  null_value = 2 ^ 16 - 1;
}

abbrev pub var_data_field : FieldSpec
var_data_field = record {
  name = "v.VarData";
  id = none;
  since_version = 0;
  deprecated = some 0;
  meta = none;
  min_value = 0;
  max_value = 2 ^ 8 - 2;
  null_value = 2 ^ 8 - 1;
}

unfoldable pub range_check : VarDataEncoding → ℕ → ℕ → Outcome (Unit {0})
range_check v acting_version schema_version = all_checks (
    check_field length_field acting_version v.length
    ∷ check_field var_data_field acting_version v.var_data
    ∷ [])

unfoldable pub encode : VarDataEncoding → ByteOrder → Stream (Unit {0})
encode v order = do write_uint order 2 v.length; write_uint order 1 v.var_data

unfoldable pub decode : ByteOrder → ℕ → Stream VarDataEncoding
decode order acting_version = do
  length ← read_field length_field order 2 acting_version
  var_data ← read_field var_data_field order 1 acting_version
  return (record { length = length; var_data = var_data })
