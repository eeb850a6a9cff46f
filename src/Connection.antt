-- ===== src/Connection.antt =====
-- Connections between memories: app/models/connection.py, app/repositories/connection.py and
-- app/services/connection_service.py.
pub mod Row
pub mod Repository
pub mod Service
pub mod Typing
pub mod Reads
pub mod Pairs
pub mod Sound
pub mod Suggest
pub mod Requests
pub mod Reach
pub mod Derive
pub mod Ceiling
pub mod Offers
pub mod Ends
pub mod Drawing
pub mod View
pub mod Unseen
pub mod Others
pub mod Tenancy
pub mod Mirror
pub mod Examples
