-- ===== src/Receive.antt =====
-- The receiving side: RtpTrans/RTPSessionEx.cpp and RtpTrans/RtpReceive.cpp.
pub mod Peers
pub mod Sources
pub mod Defs
pub mod Delivery
