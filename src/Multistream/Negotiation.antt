-- ===== src/Multistream/Negotiation.antt =====
-- A dialer and a listener of core/src/multistream/negotiator.rs on the two ends of one connection.
pub mod Joint
pub mod Stages
pub mod Settling
pub mod Verdict
pub mod Agreement
