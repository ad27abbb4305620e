-- ===== src/Session/Remux.antt =====
-- ezviz_stream_bridge/session.py: the part of `CloudSession.run` from the leading packets to the pump.
pub mod EndToEnd
use ezviz_stream_bridge.Prelude.{ℕ, Bool, true, false, Option, none, some, List, [], Bytes}
use ezviz_stream_bridge.Session.Queue.{Answer}
use ezviz_stream_bridge.Session.AudioPipe.{new_pipe}
use ezviz_stream_bridge.Session.VideoPipe.{new_video_pipe}
use ezviz_stream_bridge.Session.Plan.{PayloadPlan, Caches}
use ezviz_stream_bridge.Session.Accept.{Metrics}
use ezviz_stream_bridge.Session.Reading.{Item, Ending, finishes, fails, read_prefix}
use ezviz_stream_bridge.Session.Sinks.{AudioInput, no_input, live, VideoSink, queue, stdin, Race}
use ezviz_stream_bridge.Session.Pump.{Pumped, pump_vtm_to_ffmpeg}

-- What the surroundings of a session answer: the descriptors of the two pipes and the calls of the
-- standard input, what the watchdog does during each feed, the time at which the pump begins, and,
-- at its end, the kind of the video's exception and the cancel flag.
pub record Surroundings : Type 0 where
  pub audio_answers : List Answer
  pub video_answers : List Answer
  pub stdin_failing : List Bool
  pub races : ℕ → Race
  pub begins : ℕ
  pub is_gone : Bool
  pub cancelled : Bool

-- How far a session gets: reading the leading packets raises, it is cancelled by then, or the pump
-- runs on a plan.
pub data Remuxed : Type 0 where
  read_raises aborted_early : Remuxed
  remuxed : PayloadPlan → Pumped → Remuxed

-- The inputs that `_start_ffmpeg` makes: pipes of their own only where there is audio.
abbrev pub video_input : Surroundings → Option ℕ → VideoSink
video_input around none = stdin (record { failing = around.stdin_failing; written = [] })
video_input around (some payload_type) = queue (new_video_pipe around.video_answers)

abbrev pub audio_input : Surroundings → Option ℕ → AudioInput
audio_input around none = no_input
audio_input around (some payload_type) = live (new_pipe around.audio_answers)

module _ (rtp_payload : Bytes → Option Bytes) where
  -- The pump's thread, on what the reading of the leading packets left.
  abbrev pub start_pump : Surroundings → ℕ → PayloadPlan → Caches → Metrics → List Item → Pumped
  start_pump around serial plan caches metrics items =
      pump_vtm_to_ffmpeg rtp_payload around.races serial plan
        (video_input around plan.audio_payload_type) (audio_input around plan.audio_payload_type)
        around.begins caches metrics items around.is_gone around.cancelled

  -- `run`, from the end of `_read_prefix` on; `aborted` is the cancel flag there.
  abbrev pub after_read : Surroundings → ℕ → Bool → Ending PayloadPlan × Caches → Remuxed
  after_read around serial aborted (fails metrics, caches) = read_raises
  after_read around serial true (finishes plan metrics items, caches) = aborted_early
  after_read around serial false (finishes plan metrics items, caches) =
      remuxed plan (start_pump around serial plan caches metrics items)

  -- `run`, from `_read_prefix` to the pump; `in_prefix` and `aborted` are the cancel flag at the end of
  -- the one and before the other.
  unfoldable pub remux :
      Surroundings → ℕ → ℕ → ℕ → Bool → Bool → Caches → List Item → Metrics → Remuxed
  remux around serial audio_window now in_prefix aborted caches items metrics =
      after_read around serial aborted
        (read_prefix rtp_payload serial audio_window now in_prefix caches items metrics)
