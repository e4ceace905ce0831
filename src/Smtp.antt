-- ===== src/Smtp.antt =====
-- src/smtp/: the receiver. The children have its parts, from the bytes of a connection up.
pub mod Utf8
pub mod Commands
pub mod Wire
pub mod Data
pub mod Recipient
pub mod Session
pub mod Limiter
