-- ===== src/Multistream.antt =====
-- multistream-select (core/src/multistream): the messages with which two ends agree on a protocol.
pub mod Uvi
pub mod Message
pub mod Single
pub mod Listing
pub mod RoundTrip
pub mod LengthDelimited
pub mod Negotiator
pub mod Negotiation
mod Model
mod Tests
