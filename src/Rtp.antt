-- ===== src/Rtp.antt =====
-- ezviz_stream_bridge/rtp.py, the video half: naming the codec of an RTP payload, and turning
-- H.264 (RFC 6184) and HEVC (RFC 7798) payloads into an Annex-B stream.
pub mod Constants
pub mod Packing
pub mod Detect
pub mod Depacketizer
pub mod ParameterSets
