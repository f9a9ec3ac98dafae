-- ===== src/Suppression.antt =====
-- suppression.go: the suppression list and the interceptor that consults it.
mod Tests
pub mod Memory
pub mod Intercept
pub mod Loop
pub mod Report
