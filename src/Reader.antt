-- ===== src/Reader.antt =====
-- zbc/reader.go: MessageReader over a buffered connection.
pub mod Buffer
pub mod Headers
pub mod Parse
pub mod Laws
pub mod Sections
pub mod RoundTrip
pub mod Messages
pub mod Steps
pub mod Segments
pub mod Written
pub mod Results
