-- ===== src/Fix.antt =====
-- The FIX engine of pyfix/: messages, sessions and the recovery of gaps.
pub mod Decimal
pub mod Message
pub mod Recno
pub mod Validate
pub mod Session
pub mod Parser
pub mod Resend
pub mod Gaps
pub mod Heartbeats
mod Tests
