-- ===== src/FileCodec.antt =====
-- The recording of coded frames in a file and their playback: Media/FileEnCodec.cpp and
-- Media/FileDeCodec.cpp.
pub mod Bytes
pub mod Encoder
pub mod Decoder
pub mod Cut
pub mod RoundTrip
pub mod Overrun
