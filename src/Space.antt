-- ===== src/Space.antt =====
-- Shared Spaces: app/models/space.py, app/repositories/space.py and
-- app/services/space_service.py.
pub mod Row
pub mod Repository
pub mod Service
pub mod Invites
pub mod Access
pub mod Items
pub mod Joining
pub mod Reach
pub mod Privilege
mod Examples
