-- ===== src/Http.antt =====
-- src/shared/utils and src/shared/middlewares: calls to other services with retries, and the check of
-- signed requests from Domain 2.
pub mod Retry
pub mod Sorted
pub mod Pages
pub mod Signed
