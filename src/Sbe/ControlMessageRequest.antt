-- ===== src/Sbe/ControlMessageRequest.antt =====
-- zbc/sbe/ControlMessageRequest.go
pub mod Laws
use zbc_go.Common.{ℕ, ◌-◌, ◌^◌, Bool, some, none, [], ◌∷◌}
use zbc_go.Wire.{Bytes, Outcome, Stream, ◌>>=◌, ◌>>◌, return, ByteOrder, write_uint}
use zbc_go.Sbe.Field.{FieldSpec, EnumFieldSpec, VarFieldSpec, MessageSpec, meta_attribute}
use zbc_go.Sbe.Field.{read_field, read_enum_field, read_var_field, write_var, skip_extension}
use zbc_go.Sbe.Field.{check_if, all_checks, check_field, check_enum, check_utf8}
use zbc_go.Sbe.Enums.{event_type, subscription_type, control_message_type, error_code}

pub record ControlMessageRequest : Type 0 where
  pub message_type : ℕ
  pub data_bytes : Bytes

abbrev pub message_spec : MessageSpec
message_spec = record {
  block_length = 1;
  template_id = 10;
  schema_id = 0;
  schema_version = 1;
  semantic_type = [];
}

abbrev pub message_type_field : EnumFieldSpec
message_type_field = record { id = 1; since_version = 0; deprecated = 0; meta = meta_attribute }

abbrev pub data_bytes_field : VarFieldSpec
data_bytes_field = record {
  name = "c.Data";
  since_version = 0;
  deprecated = 0;
  meta = meta_attribute;
  character_encoding = "UTF-8";
  header_length = 2;
}

unfoldable pub range_check : ControlMessageRequest → ℕ → ℕ → Outcome (Unit {0})
range_check c acting_version schema_version = all_checks (
    check_enum control_message_type acting_version schema_version c.message_type
    ∷ check_utf8 "c.Data" c.data_bytes
    ∷ [])

unfoldable pub encode : ControlMessageRequest → ByteOrder → Bool → Stream (Unit {0})
encode c order do_range_check = do
  check_if do_range_check (range_check c message_spec.schema_version message_spec.schema_version)
  write_uint order 1 c.message_type
  write_var order c.data_bytes

unfoldable pub decode :
    ControlMessageRequest → ByteOrder → ℕ → ℕ → Bool → Stream ControlMessageRequest
decode c order acting_version block_length do_range_check = do
  message_type ← read_enum_field message_type_field order acting_version c.message_type
  skip_extension message_spec acting_version block_length
  data_bytes ← read_var_field data_bytes_field order acting_version c.data_bytes
  let decoded = record c { message_type = message_type; data_bytes = data_bytes }
  check_if do_range_check (range_check decoded acting_version message_spec.schema_version)
  return decoded
