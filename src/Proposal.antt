-- ===== src/Proposal.antt =====
-- Proposals that a person confirms by a tap: app/services/chat_engine/proposals.py,
-- app/services/telegram/confirm.py and the keyboards of app/services/telegram/formatting.py.
pub mod Row
pub mod Store
pub mod Confirm
pub mod Callback
pub mod Once
pub mod Effects
pub mod Provenance
mod Examples
