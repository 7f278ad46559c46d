-- ===== src/Auth.antt =====
-- nestjs-project/src/auth: the entities, the service and what it guarantees.
pub mod Model
pub mod Duration
pub mod Sessions
pub mod Requests
pub mod Verification
pub mod Accounts
pub mod Interleaving
