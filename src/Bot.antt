-- ===== src/Bot.antt =====
-- app/bot: what stands between Telegram and the services.
pub mod Delivery
pub mod Session
pub mod Throttle
