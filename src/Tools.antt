-- ===== src/Tools.antt =====
-- tools/: the simulated game and the simulated Bot, clients that speak the protocol.
pub mod SimGame
pub mod SimBot
mod Examples
