-- ===== src/Sbe/Enums.antt =====
-- The enumeration types: EventType, SubscriptionType, ControlMessageType and ErrorCode. A value is
-- its uint8. The four files have the same methods, up to the constants.
pub mod Laws
use zbc_go.Common.{ℕ, Bool, String, List, ◌∷◌, []}
use zbc_go.Wire.{Outcome, Stream, ByteOrder, read_uint, write_uint}
use zbc_go.Sbe.Field.{EnumSpec, check_enum, in_acting_version}

abbrev pub event_type : EnumSpec
event_type = record {
  name = "EventType";
  values =
      ("TASK_EVENT", 0)
      ∷ ("RAFT_EVENT", 1)
      ∷ ("SUBSCRIPTION_EVENT", 2)
      ∷ ("SUBSCRIBER_EVENT", 3)
      ∷ ("DEPLOYMENT_EVENT", 4)
      ∷ ("WORKFLOW_INSTANCE_EVENT", 5)
      ∷ ("INCIDENT_EVENT", 6)
      ∷ ("WORKFLOW_EVENT", 7)
      ∷ ("NOOP_EVENT", 8)
      ∷ ("NullValue", 255)
      ∷ [];
}

abbrev pub subscription_type : EnumSpec
subscription_type = record {
  name = "SubscriptionType";
  values = ("TASK_SUBSCRIPTION", 0) ∷ ("TOPIC_SUBSCRIPTION", 1) ∷ ("NullValue", 255) ∷ [];
}

abbrev pub control_message_type : EnumSpec
control_message_type = record {
  name = "ControlMessageType";
  values =
      ("ADD_TASK_SUBSCRIPTION", 0)
      ∷ ("REMOVE_TASK_SUBSCRIPTION", 1)
      ∷ ("INCREASE_TASK_SUBSCRIPTION_CREDITS", 2)
      ∷ ("REMOVE_TOPIC_SUBSCRIPTION", 3)
      ∷ ("REQUEST_TOPOLOGY", 4)
      ∷ ("NullValue", 255)
      ∷ [];
}

abbrev pub error_code : EnumSpec
error_code = record {
  name = "ErrorCode";
  values =
      ("MESSAGE_NOT_SUPPORTED", 0)
      ∷ ("TOPIC_NOT_FOUND", 1)
      ∷ ("REQUEST_WRITE_FAILURE", 2)
      ∷ ("INVALID_CLIENT_VERSION", 3)
      ∷ ("REQUEST_TIMEOUT", 4)
      ∷ ("REQUEST_PROCESSING_FAILURE", 5)
      ∷ ("NullValue", 255)
      ∷ [];
}

unfoldable pub encode : ByteOrder → ℕ → Stream (Unit {0})
unfolding write_uint
encode order e = write_uint order 1 e

-- What is decoded replaces the value of the receiver.
unfoldable pub decode : ByteOrder → ℕ → Stream ℕ
unfolding read_uint
decode order acting_version = read_uint order 1

unfoldable pub range_check : EnumSpec → ℕ → ℕ → ℕ → Outcome (Unit {0})
unfolding check_enum
range_check spec acting_version schema_version e = check_enum spec acting_version schema_version e

-- The accessors of one constant: …SinceVersion and …Deprecated.
pub record ConstantSpec : Type 0 where
  pub name : String
  pub since_version : ℕ
  pub deprecated : ℕ

abbrev constant : String → ℕ → ℕ → ConstantSpec
constant name since_version deprecated = record {
  name = name;
  since_version = since_version;
  deprecated = deprecated;
}

-- …InActingVersion
unfoldable pub constant_in_acting_version : ConstantSpec → ℕ → Bool
unfolding in_acting_version
constant_in_acting_version c acting_version = in_acting_version c.since_version acting_version

-- WORKFLOW_INSTANCE_EVENT and NOOP_EVENT have no accessors.
abbrev pub event_type_constants : List ConstantSpec
event_type_constants =
    constant "TASK_EVENT" 0 0
    ∷ constant "RAFT_EVENT" 0 0
    ∷ constant "SUBSCRIPTION_EVENT" 0 0
    ∷ constant "SUBSCRIBER_EVENT" 0 0
    ∷ constant "DEPLOYMENT_EVENT" 0 0
    ∷ constant "WORKFLOW_EVENT" 0 0
    ∷ constant "INCIDENT_EVENT" 0 0
    ∷ []

-- The accessors of SubscriptionType.
abbrev pub subscription_type_constants : List ConstantSpec
subscription_type_constants =
    constant "TASK_SUBSCRIPTION" 0 0 ∷ constant "TOPIC_SUBSCRIPTION" 0 0 ∷ []

-- REQUEST_TOPOLOGY has no accessors.
abbrev pub control_message_type_constants : List ConstantSpec
control_message_type_constants =
    constant "ADD_TASK_SUBSCRIPTION" 0 0
    ∷ constant "REMOVE_TASK_SUBSCRIPTION" 0 0
    ∷ constant "INCREASE_TASK_SUBSCRIPTION_CREDITS" 0 0
    ∷ constant "REMOVE_TOPIC_SUBSCRIPTION" 0 0
    ∷ []

-- The accessors of ErrorCode.
abbrev pub error_code_constants : List ConstantSpec
error_code_constants =
    constant "MESSAGE_NOT_SUPPORTED" 0 0
    ∷ constant "TOPIC_NOT_FOUND" 0 0
    ∷ constant "REQUEST_WRITE_FAILURE" 0 0
    ∷ constant "INVALID_CLIENT_VERSION" 0 0
    ∷ constant "REQUEST_TIMEOUT" 0 0
    ∷ constant "REQUEST_PROCESSING_FAILURE" 0 0
    ∷ []

-- The methods of an enumeration type.
pub record EnumMethods : Type 0 where
  pub spec : EnumSpec
  pub encode : ByteOrder → ℕ → Stream (Unit {0})
  pub decode : ByteOrder → ℕ → Stream ℕ
  pub range_check : ℕ → ℕ → ℕ → Outcome (Unit {0})
  pub encoded_length : ℕ
  pub constants : List ConstantSpec

abbrev pub methods : EnumSpec → List ConstantSpec → EnumMethods
methods spec constants = record {
  spec = spec;
  encode = encode;
  decode = decode;
  range_check = range_check spec;
  encoded_length = 1;
  constants = constants;
}

abbrev pub event_type_methods : EnumMethods
event_type_methods = methods event_type event_type_constants

abbrev pub subscription_type_methods : EnumMethods
subscription_type_methods = methods subscription_type subscription_type_constants

abbrev pub control_message_type_methods : EnumMethods
control_message_type_methods = methods control_message_type control_message_type_constants

abbrev pub error_code_methods : EnumMethods
error_code_methods = methods error_code error_code_constants
