-- ===== src/Sbe/MessageHeader.antt =====
-- zbc/sbe/MessageHeader.go
pub mod Laws
use zbc_go.Common.{ℕ, ◌-◌, ◌^◌, some, none, [], ◌∷◌}
use zbc_go.Wire.{Outcome, Stream, ◌>>=◌, ◌>>◌, return, ByteOrder, write_uint}
use zbc_go.Sbe.Field.{FieldSpec, read_field, all_checks, check_field}

pub record MessageHeader : Type 0 where
  pub block_length : ℕ
  pub template_id : ℕ
  pub schema_id : ℕ
  pub version : ℕ

abbrev pub block_length_field : FieldSpec
block_length_field = record {
  name = "m.BlockLength";
  id = none;
  since_version = 0;
  deprecated = some 0;
  meta = none;
  min_value = 0;
  max_value = 2 ^ 16 - 2;
  null_value = 2 ^ 16 - 1;
}

abbrev pub template_id_field : FieldSpec
template_id_field = record {
  name = "m.TemplateId";
  id = none;
  since_version = 0;
  deprecated = some 0;
  meta = none;
  min_value = 0;
  max_value = 2 ^ 16 - 2;
  null_value = 2 ^ 16 - 1;
}

abbrev pub schema_id_field : FieldSpec
schema_id_field = record {
  name = "m.SchemaId";
  id = none;
  since_version = 0;
  deprecated = some 0;
  meta = none;
  min_value = 0;
  max_value = 2 ^ 16 - 2;
  null_value = 2 ^ 16 - 1;
}

abbrev pub version_field : FieldSpec
version_field = record {
  name = "m.Version";
  id = none;
  since_version = 0;
  deprecated = some 0;
  meta = none;
  min_value = 0;
  max_value = 2 ^ 16 - 2;
  null_value = 2 ^ 16 - 1;
}

unfoldable pub range_check : MessageHeader → ℕ → ℕ → Outcome (Unit {0})
range_check m acting_version schema_version = all_checks (
    check_field block_length_field acting_version m.block_length
    ∷ check_field template_id_field acting_version m.template_id
    ∷ check_field schema_id_field acting_version m.schema_id
    ∷ check_field version_field acting_version m.version
    ∷ [])

unfoldable pub encode : MessageHeader → ByteOrder → Stream (Unit {0})
encode m order = do
  write_uint order 2 m.block_length
  write_uint order 2 m.template_id
  write_uint order 2 m.schema_id
  write_uint order 2 m.version

unfoldable pub decode : ByteOrder → ℕ → Stream MessageHeader
decode order acting_version = do
  block_length ← read_field block_length_field order 2 acting_version
  template_id ← read_field template_id_field order 2 acting_version
  schema_id ← read_field schema_id_field order 2 acting_version
  version ← read_field version_field order 2 acting_version
  return (record {
    block_length = block_length;
    template_id = template_id;
    schema_id = schema_id;
    version = version;
  })

abbrev pub encoded_length : ℕ
encoded_length = 8
