-- ===== src/Tests/Run.antt =====
-- ezviz_stream_bridge/session.py: two chunks for a consumer that then leaves, and how a session ends
-- whose FFmpeg failed.
use ezviz_stream_bridge.Prelude.{◌≡◌, true, false, not, List, [], ◌∷◌}
use ezviz_stream_bridge.Session.Consumer.{Turn, ready, idle, new_output, pump_ffmpeg_to_consumer}
use ezviz_stream_bridge.Session.Consumer.Copies.{
  output_of, output_before_stop, is_copying, some_stops, IsCounted,
  pump_ffmpeg_to_consumer-IsCounted,
}

abbrev rounds : List Turn
rounds =
    record { cancelled = false; selected = ready (71 ∷ []); elapsed = 300; consumer_fails = false }
    ∷ record { cancelled = false; selected = idle; elapsed = 500; consumer_fails = false }
    ∷ record {
      cancelled = false;
      selected = ready (71 ∷ 1 ∷ []);
      elapsed = 510;
      consumer_fails = false;
    }
    ∷ record {
      cancelled = true;
      selected = ready (71 ∷ 2 ∷ []);
      elapsed = 520;
      consumer_fails = false;
    }
    ∷ []

pump_ffmpeg_to_consumer-IsCounted_example :
    (let copied = pump_ffmpeg_to_consumer rounds new_output in
      ((output_of copied).consumed ≡ output_before_stop rounds)
      × IsCounted (output_of copied)
      × (is_copying copied ≡ not (some_stops rounds)))
pump_ffmpeg_to_consumer-IsCounted_example = pump_ffmpeg_to_consumer-IsCounted rounds
