-- ===== src/Iso8601.antt =====
-- iso8601.rs: the checks that a timer's text passes before a timer is armed.
pub mod Texts
pub mod Datetime
pub mod Float
pub mod Duration
pub mod Cycle
