-- ===== src/Webhooks.antt =====
-- webhooks/: the admission handlers.
pub mod Response
pub mod Validator
pub mod Injector
