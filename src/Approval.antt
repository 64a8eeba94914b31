-- ===== src/Approval.antt =====
-- server/src/modules/unified-approval: the approvals that the business modules start.
pub mod Types
pub mod Db
pub mod Text
pub mod Metadata
pub mod Callbacks
pub mod Resolver
pub mod Todos
pub mod Steps
pub mod Cases
pub mod Engine
pub mod Examples
