-- ===== src/Sbe/ErrorResponse.antt =====
-- zbc/sbe/ErrorResponse.go
pub mod Laws
use zbc_go.Common.{ℕ, ◌-◌, ◌^◌, Bool, some, none, [], ◌∷◌}
use zbc_go.Wire.{Bytes, Outcome, Stream, ◌>>=◌, ◌>>◌, return, ByteOrder, write_uint}
use zbc_go.Sbe.Field.{FieldSpec, EnumFieldSpec, VarFieldSpec, MessageSpec, meta_attribute}
use zbc_go.Sbe.Field.{read_field, read_enum_field, read_var_field, write_var, skip_extension}
use zbc_go.Sbe.Field.{check_if, all_checks, check_field, check_enum, check_utf8}
use zbc_go.Sbe.Enums.{event_type, subscription_type, control_message_type, error_code}

pub record ErrorResponse : Type 0 where
  pub error_code : ℕ
  pub error_data : Bytes
  pub failed_request : Bytes

abbrev pub message_spec : MessageSpec
message_spec = record {
  block_length = 1;
  template_id = 0;
  schema_id = 0;
  schema_version = 1;
  semantic_type = [];
}

abbrev pub error_code_field : EnumFieldSpec
error_code_field = record { id = 1; since_version = 0; deprecated = 0; meta = meta_attribute }

abbrev pub error_data_field : VarFieldSpec
error_data_field = record {
  name = "e.ErrorData";
  since_version = 0;
  deprecated = 0;
  meta = meta_attribute;
  character_encoding = "UTF-8";
  header_length = 2;
}

abbrev pub failed_request_field : VarFieldSpec
failed_request_field = record {
  name = "e.FailedRequest";
  since_version = 0;
  deprecated = 0;
  meta = meta_attribute;
  character_encoding = "UTF-8";
  header_length = 2;
}

unfoldable pub range_check : ErrorResponse → ℕ → ℕ → Outcome (Unit {0})
range_check e acting_version schema_version = all_checks (
    check_enum error_code acting_version schema_version e.error_code
    ∷ check_utf8 "e.ErrorData" e.error_data
    ∷ check_utf8 "e.FailedRequest" e.failed_request
    ∷ [])

unfoldable pub encode : ErrorResponse → ByteOrder → Bool → Stream (Unit {0})
encode e order do_range_check = do
  check_if do_range_check (range_check e message_spec.schema_version message_spec.schema_version)
  write_uint order 1 e.error_code
  write_var order e.error_data
  write_var order e.failed_request

unfoldable pub decode : ErrorResponse → ByteOrder → ℕ → ℕ → Bool → Stream ErrorResponse
decode e order acting_version block_length do_range_check = do
  error_code ← read_enum_field error_code_field order acting_version e.error_code
  skip_extension message_spec acting_version block_length
  error_data ← read_var_field error_data_field order acting_version e.error_data
  failed_request ← read_var_field failed_request_field order acting_version e.failed_request
  let decoded = record e {
    error_code = error_code;
    error_data = error_data;
    failed_request = failed_request;
  }
  check_if do_range_check (range_check decoded acting_version message_spec.schema_version)
  return decoded
