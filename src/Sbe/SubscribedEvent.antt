-- ===== src/Sbe/SubscribedEvent.antt =====
-- zbc/sbe/SubscribedEvent.go
pub mod Laws
pub mod Range
use zbc_go.Common.{ℕ, ◌-◌, ◌^◌, Bool, some, none, [], ◌∷◌}
use zbc_go.Wire.{Bytes, Outcome, Stream, ◌>>=◌, ◌>>◌, return, ByteOrder, write_uint}
use zbc_go.Sbe.Field.{FieldSpec, EnumFieldSpec, VarFieldSpec, MessageSpec, meta_attribute}
use zbc_go.Sbe.Field.{read_field, read_enum_field, read_var_field, write_var, skip_extension}
use zbc_go.Sbe.Field.{check_if, all_checks, check_field, check_enum, check_utf8}
use zbc_go.Sbe.Enums.{event_type, subscription_type, control_message_type, error_code}

pub record SubscribedEvent : Type 0 where
  pub partition_id : ℕ
  pub position : ℕ
  pub key : ℕ
  pub subscriber_key : ℕ
  pub subscription_type : ℕ
  pub event_type : ℕ
  pub topic_name : Bytes
  pub event : Bytes

abbrev pub message_spec : MessageSpec
message_spec = record {
  block_length = 28;
  template_id = 30;
  schema_id = 0;
  schema_version = 1;
  semantic_type = [];
}

abbrev pub partition_id_field : FieldSpec
partition_id_field = record {
  name = "s.PartitionId";
  id = some 1;
  since_version = 0;
  deprecated = some 0;
  meta = some meta_attribute;
  min_value = 0;
  max_value = 2 ^ 16 - 2;
  null_value = 2 ^ 16 - 1;
}

abbrev pub position_field : FieldSpec
position_field = record {
  name = "s.Position";
  id = some 2;
  since_version = 0;
  deprecated = some 0;
  meta = some meta_attribute;
  min_value = 0;
  max_value = 2 ^ 64 - 1;
  null_value = 2 ^ 64 - 1;
}

abbrev pub key_field : FieldSpec
key_field = record {
  name = "s.Key";
  id = some 3;
  since_version = 0;
  deprecated = some 0;
  meta = some meta_attribute;
  min_value = 0;
  max_value = 2 ^ 64 - 2;
  null_value = 2 ^ 64 - 1;
}

abbrev pub subscriber_key_field : FieldSpec
subscriber_key_field = record {
  name = "s.SubscriberKey";
  id = some 4;
  since_version = 0;
  deprecated = some 0;
  meta = some meta_attribute;
  min_value = 0;
  max_value = 2 ^ 64 - 2;
  null_value = 2 ^ 64 - 1;
}

abbrev pub subscription_type_field : EnumFieldSpec
subscription_type_field = record {
  id = 5;
  since_version = 0;
  deprecated = 0;
  meta = meta_attribute;
}

abbrev pub event_type_field : EnumFieldSpec
event_type_field = record { id = 6; since_version = 0; deprecated = 0; meta = meta_attribute }

abbrev pub topic_name_field : VarFieldSpec
topic_name_field = record {
  name = "s.TopicName";
  since_version = 0;
  deprecated = 0;
  meta = meta_attribute;
  character_encoding = "UTF-8";
  header_length = 2;
}

abbrev pub event_field : VarFieldSpec
event_field = record {
  name = "s.Event";
  since_version = 0;
  deprecated = 0;
  meta = meta_attribute;
  character_encoding = "UTF-8";
  header_length = 2;
}

unfoldable pub range_check : SubscribedEvent → ℕ → ℕ → Outcome (Unit {0})
range_check s acting_version schema_version = all_checks (
    check_field partition_id_field acting_version s.partition_id
    ∷ check_field position_field acting_version s.position
    ∷ check_field key_field acting_version s.key
    ∷ check_field subscriber_key_field acting_version s.subscriber_key
    ∷ check_enum subscription_type acting_version schema_version s.subscription_type
    ∷ check_enum event_type acting_version schema_version s.event_type
    ∷ [])

unfoldable pub encode : SubscribedEvent → ByteOrder → Bool → Stream (Unit {0})
encode s order do_range_check = do
  check_if do_range_check (range_check s message_spec.schema_version message_spec.schema_version)
  write_uint order 2 s.partition_id
  write_uint order 8 s.position
  write_uint order 8 s.key
  write_uint order 8 s.subscriber_key
  write_uint order 1 s.subscription_type
  write_uint order 1 s.event_type
  write_var order s.topic_name
  write_var order s.event

unfoldable pub decode : SubscribedEvent → ByteOrder → ℕ → ℕ → Bool → Stream SubscribedEvent
decode s order acting_version block_length do_range_check = do
  partition_id ← read_field partition_id_field order 2 acting_version
  position ← read_field position_field order 8 acting_version
  key ← read_field key_field order 8 acting_version
  subscriber_key ← read_field subscriber_key_field order 8 acting_version
  subscription_type ←
      read_enum_field subscription_type_field order acting_version s.subscription_type
  event_type ← read_enum_field event_type_field order acting_version s.event_type
  skip_extension message_spec acting_version block_length
  topic_name ← read_var_field topic_name_field order acting_version s.topic_name
  event ← read_var_field event_field order acting_version s.event
  let decoded = record s {
    partition_id = partition_id;
    position = position;
    key = key;
    subscriber_key = subscriber_key;
    subscription_type = subscription_type;
    event_type = event_type;
    topic_name = topic_name;
    event = event;
  }
  check_if do_range_check (range_check decoded acting_version message_spec.schema_version)
  return decoded
