-- ===== src/Hub.antt =====
-- server/hub.py: the room coordinator. Its state is one record; a handler is an action on it.
pub mod State
pub mod Rooms
pub mod Game
pub mod Bot
pub mod Dispatch
pub mod Writer
pub mod Actions
mod Examples
pub mod Fuel
pub mod Messages
pub mod Admission
pub mod Yields
pub mod Casts
pub mod Current
pub mod Quiet
pub mod Line
pub mod Stable
pub mod Generation
pub mod Expiry
pub mod Metrics
pub mod Lifetime
pub mod Rate
pub mod Session
