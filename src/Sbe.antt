-- ===== src/Sbe.antt =====
-- The generated SBE codecs (zbc/sbe): what their fields share, then one module for each type.
pub mod Utf8
pub mod Field
pub mod Enums
pub mod Signed
pub mod ExecuteCommandResponse
pub mod MessageHeader
pub mod VarDataEncoding
pub mod ControlMessageResponse
pub mod ControlMessageRequest
pub mod ErrorResponse
pub mod SubscribedEvent
pub mod ExecuteCommandRequest
pub mod BrokerEventMetadata
pub mod RoundTrips
