-- ===== src/Tests.antt =====
-- Runs of the definitions on concrete data, and the theorems at such data.
mod Rtp
mod Aac
mod Session
mod Supervisor
mod Token
mod ProgramStream
mod Plan
mod Proxy
mod Reading
mod Sinks
mod Remux
mod Run
mod Watchdog
mod Lifecycle
mod Config
