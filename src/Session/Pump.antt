-- ===== src/Session/Pump.antt =====
-- ezviz_stream_bridge/session.py: `_pump_vtm_to_ffmpeg`, `_replay_prefix` and what they call: from the
-- packets of the camera to the inputs of FFmpeg.
pub mod Calm
pub mod Delivers
use ezviz_stream_bridge.Prelude.{
  ℕ, ◌+◌, Bool, true, false, not, ◌&&◌, ◌==◌, Option, none, some, List, [], ◌∷◌, Bytes,
  if◌then◌else◌,
}
use ezviz_stream_bridge.Rtp.Constants.{Codec}
use ezviz_stream_bridge.Rtp.Depacketizer.{RtpDepacketizer, new_depacketizer}
use ezviz_stream_bridge.Rtp.Depacketizer
use ezviz_stream_bridge.Aac.Depacketizer.{AacHbrDepacketizer, new_aac_depacketizer}
use ezviz_stream_bridge.ProgramStream.{Inspector, new_inspector}
use ezviz_stream_bridge.Session.Prefix.{audio_config, Transport, mpeg_ps, mpeg_ts, rtp, unknown}
use ezviz_stream_bridge.Session.Plan.{PayloadPlan, Caches, observe_ps_parameter_sets}
use ezviz_stream_bridge.Session.Accept.{
  Arrival, Metrics, Accepted, not_video, refused, accepted, accept,
}
use ezviz_stream_bridge.Session.Reading.{Item, yields, raises}
use ezviz_stream_bridge.Session.AudioPipe
use ezviz_stream_bridge.Session.VideoPipe
use ezviz_stream_bridge.Session.Sinks.{
  AudioInput, no_input, live, ended, VideoSink, queue, stdin, Wrote, wrote, broke, sink_write,
  Sinks, Race, Fed, goes_on, video_fails, attribute_error, owns_audio, feed,
}

-- What the pump changes: the sinks, the inspector of a program stream, the parameter sets that the
-- sessions of a camera share and the metrics; and how many packets were fed.
pub record Pump : Type 0 where
  pub sinks : Sinks
  pub inspector : Option Inspector
  pub caches : Caches
  pub metrics : Metrics
  pub feeds : ℕ

-- How a part of the pump ends: it goes on, the video's sink raised, the iterator over the packets did,
-- or something else did, which is no error of a connection.
pub data Pumping : Type 0 where
  pumping sink_fails stream_fails fails : Pump → Pumping

infixl 1 ◌and_then◌
abbrev pub ◌and_then◌ : Pumping → (Pump → Pumping) → Pumping
pumping p and_then again = again p
sink_fails p and_then again = sink_fails p
stream_fails p and_then again = stream_fails p
fails p and_then again = fails p

abbrev pub depacketizer_for : Option Codec → Option ℕ → Option RtpDepacketizer
depacketizer_for none payload_type = none
depacketizer_for (some codec) payload_type = some (new_depacketizer codec payload_type)

-- Its object type is within the bounds, whatever the channels, so that the constructor does not raise.
abbrev pub audio_depacketizer_for : Option ℕ → Option ℕ → Option AacHbrDepacketizer
audio_depacketizer_for none channels = none
audio_depacketizer_for (some payload_type) channels =
    new_aac_depacketizer (audio_config channels) (some payload_type)

abbrev pub inspector_for : Transport → Option Inspector
inspector_for mpeg_ps = some new_inspector
inspector_for mpeg_ts = none
inspector_for rtp = none
inspector_for unknown = none

-- The pump as it begins, at the time `now`.
abbrev pub new_pump : PayloadPlan → VideoSink → AudioInput → ℕ → Caches → Metrics → Pump
new_pump plan video audio now caches metrics = record {
  sinks = record {
    video = video;
    depacketizer = depacketizer_for plan.codec plan.payload_type;
    audio = audio;
    audio_depacketizer = audio_depacketizer_for plan.audio_payload_type plan.audio_channels;
    audio_at = now;
  };
  inspector = inspector_for plan.transport;
  caches = caches;
  metrics = metrics;
  feeds = 0;
}

-- `_observe_ps_parameter_sets`
abbrev pub observed : ℕ → Option Inspector → List Bytes → Pump → Pump
observed serial none bodies p = p
observed serial (some inspector) bodies p =
    let seen = observe_ps_parameter_sets serial inspector bodies p.caches in
    record p { inspector = some seen.0; caches = seen.1 }

abbrev pub observe : ℕ → List Bytes → Pump → Pump
observe serial bodies p = observed serial p.inspector bodies p

-- `sinks.video.write`, where there is a prelude.
abbrev pub after_prelude : Pump → Wrote → Pumping
after_prelude p (wrote sink) = pumping (record p { sinks = record p.sinks { video = sink } })
after_prelude p (broke sink) = sink_fails (record p { sinks = record p.sinks { video = sink } })

abbrev pub write_prelude : Bytes → Pump → Pumping
write_prelude [] p = pumping p
write_prelude (b ∷ rest) p = after_prelude p (sink_write p.sinks.video (b ∷ rest))

-- Whether a packet belongs to the half that is replayed.
abbrev pub takes : Option Bool → Bool → Bool
takes none owns = true
takes (some true) owns = owns
takes (some false) owns = not owns

abbrev pub is_video_half : Option Bool → Bool
is_video_half none = false
is_video_half (some true) = false
is_video_half (some false) = true

abbrev pub after_feed : Pump → Fed → Pumping
after_feed p (goes_on s) = pumping (record p { sinks = s; feeds = p.feeds + 1 })
after_feed p (video_fails s) = sink_fails (record p { sinks = s; feeds = p.feeds + 1 })
after_feed p (attribute_error s) = fails (record p { sinks = s; feeds = p.feeds + 1 })

-- What the `finally` does to the audio's and to the video's input.
abbrev pub close_audio : AudioInput → AudioInput
close_audio no_input = no_input
close_audio (live pipe) = ended (AudioPipe.close pipe)
close_audio (ended pipe) = ended (AudioPipe.close pipe)

abbrev pub finish_video_pipe : VideoSink → VideoSink
finish_video_pipe (queue pipe) = queue (VideoPipe.close pipe)
finish_video_pipe (stdin file) = stdin file

abbrev pub finish_depacketizer : Option RtpDepacketizer → Option RtpDepacketizer
finish_depacketizer none = none
finish_depacketizer (some d) = some (Depacketizer.flush d)

-- The `finally`: what is left of the sinks.
abbrev pub finish : Pump → Pump
finish p = record p {
  sinks = record p.sinks {
    audio = close_audio p.sinks.audio;
    video = finish_video_pipe p.sinks.video;
    depacketizer = finish_depacketizer p.sinks.depacketizer;
  };
}

-- What a pump leaves: its last state, and whether `_writer_error` is set.
pub record Pumped : Type 0 where
  pub left : Pump
  pub has_error : Bool

-- The `except` and the `finally`: whether the exception of the sink or of the iterator is a
-- `BrokenPipeError` or a `ConnectionResetError`, and the cancel flag there.
abbrev pub end_pump : Bool → Bool → Pumping → Pumped
end_pump is_gone cancelled (pumping p) = record { left = finish p; has_error = false }
end_pump is_gone cancelled (sink_fails p) = record {
  left = finish p;
  has_error = not is_gone && not cancelled;
}
end_pump is_gone cancelled (stream_fails p) = record {
  left = finish p;
  has_error = not is_gone && not cancelled;
}
end_pump is_gone cancelled (fails p) = record { left = finish p; has_error = not cancelled }

module _ (rtp_payload : Bytes → Option Bytes) (races : ℕ → Race) where
  -- `sinks.feed`, during which the watchdog does what is given for the packet.
  abbrev pub feed_one : Bytes → Pump → Pumping
  feed_one body p = after_feed p (feed rtp_payload p.sinks body (races p.feeds))

  -- The loop of `_replay_prefix`.
  unfoldable pub replay_packets : Option Bool → List Bytes → Pump → Pumping
  replay_packets half [] p = pumping p
  replay_packets half (body ∷ bodies) p =
      (if takes half (owns_audio p.sinks body) then feed_one body p else pumping p)
      and_then replay_packets half bodies

  -- `_replay_prefix`
  abbrev pub replay_prefix : Option Bool → PayloadPlan → Pump → Pumping
  replay_prefix half plan p =
      (if is_video_half half
        then pumping p
        else (write_prelude plan.parameter_prelude p and_then write_prelude plan.container_prelude))
      and_then replay_packets half plan.packets

  -- The replay in one pass, or the audio's half first.
  abbrev pub replay : Option AacHbrDepacketizer → PayloadPlan → Pump → Pumping
  replay none plan p = replay_prefix none plan p
  replay (some d) plan p = replay_prefix (some true) plan p and_then replay_prefix (some false) plan

  -- A body that `_accept` returned.
  abbrev pub pump_body : ℕ → Bytes → Pump → Pumping
  pump_body serial body p = feed_one body (observe serial (body ∷ []) p)

  abbrev pub pump_accepted : ℕ → Accepted → Pump → Pumping
  pump_accepted serial not_video p = pumping p
  pump_accepted serial refused p = fails p
  pump_accepted serial (accepted body metrics) p =
      pump_body serial body (record p { metrics = metrics })

  -- The loop of the pump.
  unfoldable pub pump_items : ℕ → List Item → Pump → Pumping
  pump_items serial [] p = pumping p
  pump_items serial (raises cancelled ∷ items) p = stream_fails p
  pump_items serial (yields a ∷ items) p =
      let again =
        pump_accepted serial (accept rtp_payload a p.metrics) p and_then pump_items serial items in
      if a.cancelled then pumping p else again

  -- The body of the `try`.
  abbrev pub run_pump : ℕ → PayloadPlan → List Item → Pump → Pumping
  run_pump serial plan items p =
      replay p.sinks.audio_depacketizer plan (observe serial plan.packets p)
      and_then pump_items serial items

  -- `_pump_vtm_to_ffmpeg`
  unfoldable pub pump_vtm_to_ffmpeg :
      ℕ
      → PayloadPlan
      → VideoSink
      → AudioInput
      → ℕ
      → Caches
      → Metrics
      → List Item
      → Bool
      → Bool
      → Pumped
  pump_vtm_to_ffmpeg serial plan video audio now caches metrics items is_gone cancelled =
      end_pump is_gone cancelled
        (run_pump serial plan items (new_pump plan video audio now caches metrics))
