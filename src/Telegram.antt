-- ===== src/Telegram.antt =====
-- gateway/telegram: the gateway to Telegram chats.
pub mod Poller
pub mod Router
pub mod Client
pub mod Bot
mod Tests
