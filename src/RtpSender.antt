-- ===== src/RtpSender.antt =====
-- The class RtpSender of RtpTrans/RtpSender.cpp: a session of jrtplib with one destination, and the
-- four ways to send a buffer on it.
pub mod Defs
pub mod Fragments
pub mod Packets
pub mod Payload
pub mod Monitor
pub mod Protocol
pub use Defs.*
