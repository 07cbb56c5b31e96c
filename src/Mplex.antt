-- ===== src/Mplex.antt =====
-- The stream multiplexer mplex (protocols/mplex/src): its frames and how they are read and written.
pub mod Header
pub mod Varint
pub mod Io
pub mod RoundTrip
pub mod Model
mod Tests
