-- ===== src/Videos.antt =====
-- nestjs-project/src/videos: the table of videos, the service, the two processors, and what they
-- guarantee.
pub mod Model
pub mod Service
pub mod Processing
pub mod Transfers
pub mod Columns
pub mod Startup
pub mod Reconciliation
pub mod Completion
pub mod Visibility
pub mod Commands
pub mod Invariant
pub mod Preservation
pub mod Keys
pub mod Sweep
pub mod Pipeline
pub mod Stranded
pub mod Interleaving
