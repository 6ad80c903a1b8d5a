-- ===== src/Discord.antt =====
-- gateway/discord: the WebSocket frames, the session with the gateway, and the commands.
pub mod Frames
pub mod Session
pub mod Router
pub mod Client
pub mod Bot
mod Tests
