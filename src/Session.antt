-- ===== src/Session.antt =====
-- ezviz_stream_bridge/session.py: the pipes of one session for one consumer.
pub mod Queue
pub mod Prefix
pub mod Plan
pub mod Accept
pub mod Reading
pub mod AudioPipe
pub mod VideoPipe
pub mod Sinks
pub mod Lifecycle
pub mod Watchdog
pub mod Consumer
pub mod Run
pub mod Remux
pub mod Pump
