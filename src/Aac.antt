-- ===== src/Aac.antt =====
-- ezviz_stream_bridge/rtp.py, the audio half: RFC 3640 Access Units into ADTS frames.
pub mod Section
pub mod Adts
pub mod Depacketizer
