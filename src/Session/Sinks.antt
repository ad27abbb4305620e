-- ===== src/Session/Sinks.antt =====
-- ezviz_stream_bridge/session.py, lines 556 to 633: `_Sinks`, which routes a packet to the video or to
-- the audio of FFmpeg, and from which the stall watchdog's thread may take the audio at any time.
use ezviz_stream_bridge.Prelude.{
  ℕ, Bool, true, false, ◌&&◌, Option, none, some, List, [], ◌∷◌, ◌++◌, Bytes, same_option,
  if◌then◌else◌,
}
use ezviz_stream_bridge.Rtp.Depacketizer.{RtpDepacketizer}
use ezviz_stream_bridge.Rtp.Depacketizer
use ezviz_stream_bridge.Aac.Depacketizer.{AacHbrDepacketizer}
use ezviz_stream_bridge.Aac.Depacketizer as AacDepacketizer
use ezviz_stream_bridge.Session.Prefix.{payload_type_of}
use ezviz_stream_bridge.Session.AudioPipe.{AudioPipe}
use ezviz_stream_bridge.Session.AudioPipe
use ezviz_stream_bridge.Session.VideoPipe.{VideoPipe, Outcome, returned, raised}
use ezviz_stream_bridge.Session.VideoPipe

-- The field `audio`: `None` from the start, a pipe, or `None` after the pipe was given up.
pub data AudioInput : Type 0 where
  no_input : AudioInput
  live ended : AudioPipe → AudioInput

-- The standard input of FFmpeg, a file object: whether each of the calls to come raises, where a list
-- that has run out raises no more, and the bytes that it took.
pub record Stdin : Type 0 where
  pub failing : List Bool
  pub written : Bytes

-- The field `video`: the video pipe that a session with audio makes, or the standard input of FFmpeg.
pub data VideoSink : Type 0 where
  queue : VideoPipe → VideoSink
  stdin : Stdin → VideoSink

-- How a call of the video's sink ends.
pub data Wrote : Type 0 where
  wrote broke : VideoSink → Wrote

abbrev pub to_wrote : Outcome → Wrote
to_wrote (returned pipe) = wrote (queue pipe)
to_wrote (raised pipe) = broke (queue pipe)

-- A call of the file object that hands it some bytes, none for `flush`.
abbrev pub call_stdin : List Bool → Bytes → Bytes → Wrote
call_stdin [] written chunk = wrote (stdin (record { failing = []; written = written ++ chunk }))
call_stdin (false ∷ failing) written chunk =
    wrote (stdin (record { failing = failing; written = written ++ chunk }))
call_stdin (true ∷ failing) written chunk =
    broke (stdin (record { failing = failing; written = written }))

-- `video.write` and `video.flush`
abbrev pub sink_write : VideoSink → Bytes → Wrote
sink_write (queue pipe) chunk = to_wrote (VideoPipe.write pipe chunk)
sink_write (stdin file) chunk = call_stdin file.failing file.written chunk

abbrev pub sink_flush : VideoSink → Wrote
sink_flush (queue pipe) = to_wrote (VideoPipe.flush pipe)
sink_flush (stdin file) = call_stdin file.failing file.written []

-- `_Sinks`
pub record Sinks : Type 0 where
  pub video : VideoSink
  pub depacketizer : Option RtpDepacketizer
  pub audio : AudioInput
  pub audio_depacketizer : Option AacHbrDepacketizer
  pub audio_at : ℕ

-- What the watchdog's thread does during a `feed`: whether it gives the audio up while a packet is
-- unpacked, and whether it does between the test of `self.audio` and the call of its `flush`; and
-- the clock.
pub record Race : Type 0 where
  pub in_unpack : Bool
  pub before_flush : Bool
  pub now : ℕ

-- How `feed` ends: it returns, the video's sink raises, or `None` has no attribute `flush`.
pub data Fed : Type 0 where
  goes_on video_fails attribute_error : Sinks → Fed

abbrev pub is_live : AudioInput → Bool
is_live no_input = false
is_live (live pipe) = true
is_live (ended pipe) = false

-- `give_up_audio`, on the field and what it returns
abbrev pub give_up_input : AudioInput → AudioInput × Bool
give_up_input no_input = (no_input, false)
give_up_input (live pipe) = (ended (AudioPipe.close pipe), true)
give_up_input (ended pipe) = (ended pipe, false)

-- `give_up_audio`
abbrev pub give_up_audio : Sinks → Sinks × Bool
give_up_audio s = (record s { audio = (give_up_input s.audio).0 }, (give_up_input s.audio).1)

-- `owns_audio`
abbrev pub expects : Option AacHbrDepacketizer → Bytes → Bool
expects none body = false
expects (some d) body = same_option (payload_type_of body) d.expected

abbrev pub owns_audio : Sinks → Bytes → Bool
owns_audio s body = is_live s.audio && expects s.audio_depacketizer body

-- `pipe.write(frames)`, where there are frames and a pipe.
abbrev pub write_audio : Sinks → AudioInput → Bytes → ℕ → Sinks
write_audio s no_input frames now = s
write_audio s (ended pipe) frames now = s
write_audio s (live pipe) [] now = s
write_audio s (live pipe) (b ∷ rest) now = record s {
  audio = live (AudioPipe.write pipe (b ∷ rest));
  audio_at = now;
}

-- `self.audio.flush()`
abbrev pub flush_input : AudioInput → AudioInput
flush_input no_input = no_input
flush_input (live pipe) = live (AudioPipe.flush pipe)
flush_input (ended pipe) = ended pipe

-- `self.video.flush()`, once the chunk is written.
abbrev pub flush_video : Sinks → Wrote → Fed
flush_video s (wrote sink) = goes_on (record s { video = sink })
flush_video s (broke sink) = video_fails (record s { video = sink })

abbrev pub after_write : Sinks → Wrote → Fed
after_write s (wrote sink) = flush_video s (sink_flush sink)
after_write s (broke sink) = video_fails (record s { video = sink })

-- `if chunk:` and its two calls
abbrev pub write_video : Sinks → Bytes → Fed
write_video s [] = goes_on s
write_video s (b ∷ rest) = after_write s (sink_write s.video (b ∷ rest))

module _ (rtp_payload : Bytes → Option Bytes) where
  -- The packets of the audio.
  abbrev pub feed_audio : Sinks → Option AacHbrDepacketizer → Bytes → Race → Fed
  feed_audio s none body race = goes_on s
  feed_audio s (some d) body race =
      let fed = AacDepacketizer.feed rtp_payload d body in
      let unpacked : Sinks = record s { audio_depacketizer = some fed.0 } in
      let raced = if race.in_unpack then (give_up_audio unpacked).0 else unpacked in
      goes_on (write_audio raced raced.audio fed.1 race.now)

  -- `self.depacketizer.feed(body) if self.depacketizer is not None else body`, and what follows it.
  abbrev pub depacketize : Sinks → Option RtpDepacketizer → Bytes → Fed
  depacketize s none body = write_video s body
  depacketize s (some d) body =
      let fed = Depacketizer.feed rtp_payload d body in
      write_video (record s { depacketizer = some fed.0 }) fed.1

  -- All other packets.
  abbrev pub feed_video : Sinks → Bytes → Race → Fed
  feed_video s body race =
      let flushed : Sinks = record s { audio = flush_input s.audio } in
      let fed = depacketize flushed s.depacketizer body in
      if is_live s.audio && race.before_flush then attribute_error (give_up_audio s).0 else fed

  -- `feed`
  unfoldable pub feed : Sinks → Bytes → Race → Fed
  feed s [] race = goes_on s
  feed s (b ∷ rest) race =
      let to_audio = feed_audio s s.audio_depacketizer (b ∷ rest) race in
      let to_video = feed_video s (b ∷ rest) race in
      if owns_audio s (b ∷ rest) then to_audio else to_video
