-- ===== src/Smoke.antt =====
-- internal/smoke/smoke.go: a test deployment of a package, and its verdict.
pub mod Egress
pub mod Declared
pub mod Listing
pub mod Pages
pub mod Probe
pub mod Ending
pub mod Run
pub mod Surface
pub mod Verdict
pub mod Contacts
pub mod Tests
