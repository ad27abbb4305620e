-- ===== src/Lib.antt =====
-- A model of the EZVIZ stream bridge, the Python package ezviz_stream_bridge, and what holds of it.
--
-- The bridge serves the stream of a camera as MPEG-TS over HTTP. A supervisor keeps one proxy
-- process for each camera. A proxy opens a session with the cloud for a client, takes RTP packets
-- out of it, turns the video packets into an Annex-B stream and the audio packets into ADTS frames,
-- and feeds both to FFmpeg through two pipes that never block; without audio, the video goes to its
-- standard input. Before that, a session decides from its leading packets how FFmpeg is to read
-- them, and hands parameter sets on to later sessions of the same camera. After a camera timeout the
-- proxy opens no session until a cooldown is over.
-- The program starts from an options file, and refuses it or supervises its cameras.
--
-- The files and what they model:
--   Prelude                 bytes, lists, tests and bit masks that the parts share
--   Rtp/Constants           the constants of ezviz_stream_bridge/rtp.py
--   Rtp/Detect              `detect_codec`, `_detect_parameter_set`, `_aggregated_codec`,
--                           `_payload_type` of ezviz_stream_bridge/rtp.py
--   Rtp/Packing             what a sender writes in an aggregate
--   Rtp/Depacketizer        `PayloadTypeStat`, `RtpDepacketizer` of ezviz_stream_bridge/rtp.py
--   Rtp/Depacketizer/Wire   what a sender puts on the wire, from RFC 6184 and RFC 7798
--   Rtp/ParameterSets       `parameter_sets`, `_annex_b_head`, `_is_parameter_set` of
--                           ezviz_stream_bridge/rtp.py
--   Aac/Section             `parse_au_section` of ezviz_stream_bridge/rtp.py
--   Aac/Adts                `adts_frame`, `carries_aac_hbr`, `stream_channels`, `set_channels` of
--                           ezviz_stream_bridge/rtp.py
--   Aac/Depacketizer        `AacHbrDepacketizer` of ezviz_stream_bridge/rtp.py
--   Session/Queue           the two loops that the pipes share
--   Session/AudioPipe       `_AudioPipe` of ezviz_stream_bridge/session.py
--   Session/VideoPipe       `_VideoPipe` of ezviz_stream_bridge/session.py
--   Session/Prefix          `classify_payload` and the readings of a session's leading packets in
--                           ezviz_stream_bridge/session.py
--   Session/Plan            `_PayloadPlan`, `CloudSession._decide` and the parameter sets that it
--                           keeps, in ezviz_stream_bridge/session.py
--   Session/Plan/Sessions   what a session's `_decide` and its pump do to the shared caches
--   Session/Accept          `_MediaSpan`, `SessionMetrics` and `CloudSession._accept` of
--                           ezviz_stream_bridge/session.py
--   Session/Reading         `CloudSession._read_prefix` and `_with_audio` of
--                           ezviz_stream_bridge/session.py
--   Session/Sinks           `_Sinks` of ezviz_stream_bridge/session.py
--   Session/Pump            `CloudSession._pump_vtm_to_ffmpeg` and `_replay_prefix` of
--                           ezviz_stream_bridge/session.py
--   Session/Remux           `CloudSession.run` of ezviz_stream_bridge/session.py, from the leading
--                           packets to the pump
--   Session/Consumer        `CloudSession._pump_ffmpeg_to_consumer` of
--                           ezviz_stream_bridge/session.py
--   Session/Run             how `CloudSession.run` of ezviz_stream_bridge/session.py ends
--   Session/Watchdog        `CloudSession._watch_audio_stall` of ezviz_stream_bridge/session.py
--   Session/Lifecycle       `CloudSession.abort`, `_make_socket` and `_launch_remux` of
--                           ezviz_stream_bridge/session.py, whose threads interleave
--   ProgramStream/Units     `ParameterSets`, `make_prelude` and the cache of parameter sets in
--                           ezviz_stream_bridge/mpeg_ps.py
--   ProgramStream           `ProgramStreamInspector` of ezviz_stream_bridge/mpeg_ps.py
--   Proxy                   `ProxyServer`, `watch_peer`, `_ProxyHandler.do_GET` of
--                           ezviz_stream_bridge/proxy.py
--   Proxy/Handlers          the handlers of a server, one step at a time in any order
--   Supervisor              `_Proxy` and `Supervisor` of ezviz_stream_bridge/supervisor.py
--   Supervisor/Shutdown     `Supervisor._shutdown`
--   Token                   `TokenStore`, `read_token_file`, `_http_status` of
--                           ezviz_stream_bridge/token.py
--   Config/Document         JSON documents, and what Python makes of their values
--   Config                  `BridgeConfig`, `load_options` of ezviz_stream_bridge/config.py
--   Devices                 `parse_camera_listings` of ezviz_stream_bridge/devices.py
--   Entry                   `main` of ezviz_stream_bridge/__main__.py
--   Tests                   runs on concrete data, and the theorems at such data
-- The files below a part, such as Aac/Section/Exact, hold its lemmas and theorems.
--
-- A byte is a natural number; where a byte's range matters it is a hypothesis. Object state is a
-- record, a method returns the new state beside its result, and an exception is a value. Times are
-- whole milliseconds. The unwrap of an RTP packet, `pyezvizapi.stream.rtp_payload`, is a parameter:
-- its result, or `none` for the exception that it raises. What the operating system, the clock and
-- the token store answer are arguments: a list of answers for a pipe's descriptor, one record for a
-- pass of the supervisor over a camera, and the end of each call of the cloud's client. What Python
-- knows of characters and of the texts of numbers is a record of functions.
--
-- Fuel: the loops over an aggregate run on the payload's length, and each round consumes at least
-- three bytes of it; the theorems about aggregates reach the end of the units with it. A demuxer of
-- ADTS frames runs on any number above that of the frames. The loops that search for start codes,
-- sync bytes or parameter sets run on the length of what they search and one more, and each round
-- takes at least one byte off. A wait for the cooldown runs on a list of what its rounds read, and
-- a call that has not returned is a result of its own. All other loops recurse on their data.
--
-- Not modelled: log lines, `describe_config`, the argument list of the child process and the parsing
-- of arguments, the reaping of FFmpeg and the drain of its stderr, the standard library's HTTP
-- server and its logging, and the tools beside the package.
pub mod Prelude
pub mod Rtp
pub mod Aac
pub mod Session
pub mod Supervisor
pub mod ProgramStream
pub mod Proxy
pub mod Config
pub mod Devices
pub mod Entry
pub mod Token
pub mod Tests
