-- ===== src/Session.antt =====
-- Login sessions: app/models/user_session.py, app/repositories/user_session.py,
-- app/core/security.py and app/services/session_service.py.
pub mod Row
pub mod Repository
pub mod Service
pub mod Chain
pub mod Outcomes
pub mod Rotation
pub mod Reach
pub mod Ownership
pub mod Revocation
mod Examples
