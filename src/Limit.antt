-- ===== src/Limit.antt =====
-- What a person, a redelivered update and a turn of the agent may use up: app/core/rate_limit.py,
-- app/services/telegram/dedupe.py and app/services/chat_engine/budget.py.
pub mod Rate
pub mod Window
pub mod Dedupe
pub mod Budget
mod Examples
