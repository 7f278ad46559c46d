-- ===== src/Channels.antt =====
-- nestjs-project/src/channels
pub mod Channel
pub mod Nickname
pub mod Bounds
pub mod Service
pub mod Creation
