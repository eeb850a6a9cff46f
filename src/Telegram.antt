-- ===== src/Telegram.antt =====
-- Binding a Telegram identity to a user: app/models/telegram.py, app/repositories/telegram.py and
-- app/services/telegram/linking.py.
pub mod Row
pub mod Repository
pub mod Linking
pub mod Tokens
pub mod Binding
pub mod Redeem
pub mod Reach
mod Examples
