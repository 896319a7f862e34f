-- ===== src/Protocol.antt =====
-- protocol/: the value types, payload models, error codes and the envelope of protocol v1.
pub mod Errors
pub mod Types
pub mod Payloads
pub mod Envelope
pub mod Parse
pub mod Validators
pub mod Decimal
pub mod Schema
