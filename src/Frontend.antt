-- ===== src/Frontend.antt =====
-- next-frontend: the session behind the browser's cookie, the refresh of its tokens, and the errors
-- that the forms show.
pub mod Session
pub mod Refresh
pub mod Sharing
pub mod Forms
pub mod Bff
pub mod Signup
pub mod Widgets
pub mod Strength
pub mod Entry
