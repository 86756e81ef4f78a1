-- ===== src/Sbe/ExecuteCommandRequest.antt =====
-- zbc/sbe/ExecuteCommandRequest.go
pub mod Laws
pub mod Position
use zbc_go.Common.{ℕ, ◌-◌, ◌^◌, Bool, some, none, [], ◌∷◌}
use zbc_go.Wire.{Bytes, Outcome, Stream, ◌>>=◌, ◌>>◌, return, ByteOrder, write_uint}
use zbc_go.Sbe.Field.{FieldSpec, EnumFieldSpec, VarFieldSpec, MessageSpec, meta_attribute}
use zbc_go.Sbe.Field.{read_field, read_enum_field, read_var_field, write_var, skip_extension}
use zbc_go.Sbe.Field.{check_if, all_checks, check_field, check_enum, check_utf8}
use zbc_go.Sbe.Enums.{event_type, subscription_type, control_message_type, error_code}

pub record ExecuteCommandRequest : Type 0 where
  pub partition_id : ℕ
  pub position : ℕ
  pub key : ℕ
  pub event_type : ℕ
  pub topic_name : Bytes
  pub command : Bytes

abbrev pub message_spec : MessageSpec
message_spec = record {
  block_length = 19;
  template_id = 20;
  schema_id = 0;
  schema_version = 1;
  semantic_type = [];
}

abbrev pub partition_id_field : FieldSpec
partition_id_field = record {
  name = "e.PartitionId";
  id = some 1;
  since_version = 0;
  deprecated = some 0;
  meta = some meta_attribute;
  min_value = 0;
  max_value = 2 ^ 16 - 2;
  null_value = 2 ^ 16 - 1;
}

abbrev pub position_field : FieldSpec
position_field = record {
  name = "e.Position";
  id = none;
  since_version = 0;
  deprecated = none;
  meta = none;
  min_value = 0;
  max_value = 2 ^ 63 - 2;
  null_value = 2 ^ 63 - 1;
}

abbrev pub key_field : FieldSpec
key_field = record {
  name = "e.Key";
  id = some 2;
  since_version = 0;
  deprecated = some 0;
  meta = some meta_attribute;
  min_value = 0;
  max_value = 2 ^ 64 - 1;
  null_value = 2 ^ 64 - 1;
}

abbrev pub event_type_field : EnumFieldSpec
event_type_field = record { id = 3; since_version = 0; deprecated = 0; meta = meta_attribute }

abbrev pub topic_name_field : VarFieldSpec
topic_name_field = record {
  name = "e.TopicName";
  since_version = 0;
  deprecated = 0;
  meta = meta_attribute;
  character_encoding = "UTF-8";
  header_length = 2;
}

abbrev pub command_field : VarFieldSpec
command_field = record {
  name = "e.Command";
  since_version = 0;
  deprecated = 0;
  meta = meta_attribute;
  character_encoding = "UTF-8";
  header_length = 2;
}

unfoldable pub range_check : ExecuteCommandRequest → ℕ → ℕ → Outcome (Unit {0})
range_check e acting_version schema_version = all_checks (
    check_field partition_id_field acting_version e.partition_id
    ∷ check_field key_field acting_version e.key
    ∷ check_field position_field acting_version e.position
    ∷ check_enum event_type acting_version schema_version e.event_type
    ∷ check_utf8 "e.TopicName" e.topic_name
    ∷ [])

unfoldable pub encode : ExecuteCommandRequest → ByteOrder → Bool → Stream (Unit {0})
encode e order do_range_check = do
  check_if do_range_check (range_check e message_spec.schema_version message_spec.schema_version)
  write_uint order 2 e.partition_id
  write_uint order 8 e.position
  write_uint order 8 e.key
  write_uint order 1 e.event_type
  write_var order e.topic_name
  write_var order e.command

unfoldable pub decode :
    ExecuteCommandRequest → ByteOrder → ℕ → ℕ → Bool → Stream ExecuteCommandRequest
decode e order acting_version block_length do_range_check = do
  partition_id ← read_field partition_id_field order 2 acting_version
  key ← read_field key_field order 8 acting_version
  event_type ← read_enum_field event_type_field order acting_version e.event_type
  skip_extension message_spec acting_version block_length
  topic_name ← read_var_field topic_name_field order acting_version e.topic_name
  command ← read_var_field command_field order acting_version e.command
  let decoded = record e {
    partition_id = partition_id;
    key = key;
    event_type = event_type;
    topic_name = topic_name;
    command = command;
  }
  check_if do_range_check (range_check decoded acting_version message_spec.schema_version)
  return decoded
