-- ===== src/Session/Watchdog.antt =====
-- ezviz_stream_bridge/session.py: `_watch_audio_stall` and `_end_stalled_audio`, the thread that gives
-- a silent audio input up.
pub mod Silent
use ezviz_stream_bridge.Prelude.{
  ℕ, ◌-◌, Bool, Option, none, some, List, [], ◌∷◌, ltb, if◌then◌else◌,
}
use ezviz_stream_bridge.Session.Sinks.{Sinks, is_live, give_up_audio}

-- `_AUDIO_STALL_SECONDS` and `_AUDIO_STALL_POLL`, in milliseconds.
abbrev pub audio_stall : ℕ
audio_stall = 5000

abbrev pub audio_stall_poll : ℕ
audio_stall_poll = 500

-- What the thread meets after one wait: whether it was stopped, the sinks and the clock when it looks,
-- whether the pump's thread gives the audio up before this one does, and the clock when it is read
-- again for the note.
pub record Glance : Type 0 where
  pub stopped : Bool
  pub sinks : Sinks
  pub now : ℕ
  pub overtaken : Bool
  pub noted_at : ℕ

-- How the thread stands: still waiting, returned, or returned after `_end_stalled_audio`, with the
-- sinks and with `_audio_ended_at`.
pub data Watch : Type 0 where
  waits returns : Watch
  ends_audio : Sinks → Option ℕ → Watch

-- `_end_stalled_audio`; `now` is its reading of the clock.
unfoldable pub end_stalled_audio : ℕ → ℕ → Sinks → Watch
end_stalled_audio started now s =
    let given_up = give_up_audio s in
    ends_audio given_up.0 (if given_up.1 then some (now - started) else none)

-- `_watch_audio_stall`
unfoldable pub watch_audio_stall : ℕ → List Glance → Watch
watch_audio_stall started [] = waits
watch_audio_stall started (poll ∷ polls) =
    let rest = watch_audio_stall started polls in
    if poll.stopped
    then returns
    else if is_live poll.sinks.audio
    then if ltb audio_stall (poll.now - poll.sinks.audio_at)
      then end_stalled_audio started poll.noted_at
          (if poll.overtaken then (give_up_audio poll.sinks).0 else poll.sinks)
      else rest
    else returns
