-- ===== src/Telegram.antt =====
-- telegram/: the operator's chat with the service.
pub mod Pending
pub mod Bot
mod Tests
