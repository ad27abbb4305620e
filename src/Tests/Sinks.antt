-- ===== src/Tests/Sinks.antt =====
-- ezviz_stream_bridge/session.py: the sinks of a session with audio.
use ezviz_stream_bridge.Prelude.{some, [], ◌∷◌}
use ezviz_stream_bridge.Rtp.Constants.{h264}
use ezviz_stream_bridge.Rtp.Depacketizer.{new_depacketizer}
use ezviz_stream_bridge.Session.Queue.{accepts}
use ezviz_stream_bridge.Session.AudioPipe.{new_pipe}
use ezviz_stream_bridge.Session.VideoPipe.{new_video_pipe}
use ezviz_stream_bridge.Session.Sinks.{Sinks, queue, live}

abbrev pub sinks : Sinks
sinks = record {
  video = queue (new_video_pipe (accepts 1000 ∷ []));
  depacketizer = some (new_depacketizer h264 (some 96));
  audio = live (new_pipe []);
  audio_depacketizer = some (record {
    config = 0x1408;
    expected = some 104;
    packets = 0;
    aus = 0;
    dropped = 0;
    skipped = 0;
  });
  audio_at = 0;
}
