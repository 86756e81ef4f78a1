-- ===== src/Sbe/BrokerEventMetadata.antt =====
-- zbc/sbe/BrokerEventMetadata.go
pub mod Laws
use zbc_go.Common.{ℕ, ℤ, pos, negsuc, ◌-◌, ◌^◌, Bool, some, [], ◌∷◌}
use zbc_go.Wire.{Outcome, Stream, ◌>>=◌, ◌>>◌, return, ByteOrder, write_uint}
use zbc_go.Sbe.Field.{FieldSpec, EnumFieldSpec, MessageSpec, meta_attribute}
use zbc_go.Sbe.Field.{read_field, read_enum_field, skip_extension, check_if, all_checks}
use zbc_go.Sbe.Field.{check_field, check_enum}
use zbc_go.Sbe.Signed.{IntFieldSpec, read_int_field, write_int, check_int_field}
use zbc_go.Sbe.Enums.{event_type}

pub record BrokerEventMetadata : Type 0 where
  pub req_stream_id : ℤ
  pub req_request_id : ℕ
  pub raft_term_id : ℤ
  pub subscription_id : ℕ
  pub protocol_version : ℕ
  pub event_type : ℕ
  pub incident_key : ℕ

abbrev pub message_spec : MessageSpec
message_spec = record {
  block_length = 43;
  template_id = 200;
  schema_id = 0;
  schema_version = 1;
  semantic_type = [];
}

-- The accessors of the field ReqStreamId are named ReqChannelId….
abbrev pub req_stream_id_field : IntFieldSpec
req_stream_id_field = record {
  name = "b.ReqStreamId";
  id = 1;
  since_version = 0;
  deprecated = 0;
  meta = meta_attribute;
  min_value = negsuc (2 ^ 31 - 2);
  max_value = pos (2 ^ 31 - 1);
  null_value = negsuc (2 ^ 31 - 1);
}

abbrev pub req_request_id_field : FieldSpec
req_request_id_field = record {
  name = "b.ReqRequestId";
  id = some 3;
  since_version = 0;
  deprecated = some 0;
  meta = some meta_attribute;
  min_value = 0;
  max_value = 2 ^ 64 - 2;
  null_value = 2 ^ 64 - 1;
}

abbrev pub raft_term_id_field : IntFieldSpec
raft_term_id_field = record {
  name = "b.RaftTermId";
  id = 4;
  since_version = 0;
  deprecated = 0;
  meta = meta_attribute;
  min_value = negsuc (2 ^ 31 - 2);
  max_value = pos (2 ^ 31 - 1);
  null_value = negsuc (2 ^ 31 - 1);
}

abbrev pub subscription_id_field : FieldSpec
subscription_id_field = record {
  name = "b.SubscriptionId";
  id = some 5;
  since_version = 0;
  deprecated = some 0;
  meta = some meta_attribute;
  min_value = 0;
  max_value = 2 ^ 64 - 2;
  null_value = 2 ^ 64 - 1;
}

abbrev pub protocol_version_field : FieldSpec
protocol_version_field = record {
  name = "b.ProtocolVersion";
  id = some 6;
  since_version = 0;
  deprecated = some 0;
  meta = some meta_attribute;
  min_value = 0;
  max_value = 2 ^ 16 - 2;
  null_value = 2 ^ 16 - 1;
}

abbrev pub event_type_field : EnumFieldSpec
event_type_field = record { id = 7; since_version = 0; deprecated = 0; meta = meta_attribute }

abbrev pub incident_key_field : FieldSpec
incident_key_field = record {
  name = "b.IncidentKey";
  id = some 8;
  since_version = 0;
  deprecated = some 0;
  meta = some meta_attribute;
  min_value = 0;
  max_value = 2 ^ 64 - 2;
  null_value = 2 ^ 64 - 1;
}

unfoldable pub range_check : BrokerEventMetadata → ℕ → ℕ → Outcome (Unit {0})
range_check b acting_version schema_version = all_checks (
    check_int_field req_stream_id_field acting_version b.req_stream_id
    ∷ check_field req_request_id_field acting_version b.req_request_id
    ∷ check_int_field raft_term_id_field acting_version b.raft_term_id
    ∷ check_field subscription_id_field acting_version b.subscription_id
    ∷ check_field protocol_version_field acting_version b.protocol_version
    ∷ check_enum event_type acting_version schema_version b.event_type
    ∷ check_field incident_key_field acting_version b.incident_key
    ∷ [])

unfoldable pub encode : BrokerEventMetadata → ByteOrder → Bool → Stream (Unit {0})
encode b order do_range_check = do
  check_if do_range_check (range_check b message_spec.schema_version message_spec.schema_version)
  write_int order b.req_stream_id
  write_uint order 8 b.req_request_id
  write_int order b.raft_term_id
  write_uint order 8 b.subscription_id
  write_uint order 2 b.protocol_version
  write_uint order 1 b.event_type
  write_uint order 8 b.incident_key

unfoldable pub decode : BrokerEventMetadata → ByteOrder → ℕ → ℕ → Bool → Stream BrokerEventMetadata
decode b order acting_version block_length do_range_check = do
  req_stream_id ← read_int_field req_stream_id_field order acting_version
  req_request_id ← read_field req_request_id_field order 8 acting_version
  raft_term_id ← read_int_field raft_term_id_field order acting_version
  subscription_id ← read_field subscription_id_field order 8 acting_version
  protocol_version ← read_field protocol_version_field order 2 acting_version
  event_type ← read_enum_field event_type_field order acting_version b.event_type
  incident_key ← read_field incident_key_field order 8 acting_version
  skip_extension message_spec acting_version block_length
  let decoded : BrokerEventMetadata = record {
    req_stream_id = req_stream_id;
    req_request_id = req_request_id;
    raft_term_id = raft_term_id;
    subscription_id = subscription_id;
    protocol_version = protocol_version;
    event_type = event_type;
    incident_key = incident_key;
  }
  check_if do_range_check (range_check decoded acting_version message_spec.schema_version)
  return decoded
