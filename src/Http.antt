-- ===== src/Http.antt =====
-- What stands between a request and the services: nestjs-project/src/auth/guards,
-- nestjs-project/src/common, the bodies' validation and the controllers.
pub mod Guard
pub mod Errors
pub mod Bodies
pub mod Routes
pub mod Handlers
pub mod Conformance
