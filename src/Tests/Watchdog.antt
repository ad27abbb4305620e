-- ===== src/Tests/Watchdog.antt =====
-- ezviz_stream_bridge/session.py: an audio input without data for six seconds.
use ezviz_stream_bridge.Prelude.{
  ℕ, zero, suc, ◌+◌, ◌≡◌, refl, ap, List, [], ◌∷◌, length, All, ◌++◌, arith, false,
}
use ezviz_stream_bridge.Session.Watchdog.{Glance, audio_stall_poll}
use ezviz_stream_bridge.Session.Watchdog.Silent.{
  IsFed, Stalled, begins, Silent, over, goes_on, EndsAudio, watch_audio_stall-EndsAudio,
}
use ezviz_stream_bridge.Tests.Sinks.{sinks}

abbrev poll_at : ℕ → Glance
poll_at now = record {
  stopped = false;
  sinks = sinks;
  now = now;
  overtaken = false;
  noted_at = now + 1;
}

-- Polls that are half a second apart.
unfoldable polls_from : ℕ → ℕ → List Glance
polls_from zero now = []
polls_from (suc n) now = poll_at (now + audio_stall_poll) ∷ polls_from n (now + audio_stall_poll)

polls_from-Silent : (n now : ℕ) → Silent 0 now (polls_from n now)
unfolding polls_from
polls_from-Silent zero now = over
polls_from-Silent (suc n) now =
    goes_on (record { runs = refl; has_audio = refl; since = refl }) (omega arith)
      (polls_from-Silent n (now + audio_stall_poll))

length-polls_from : (n now : ℕ) → length (polls_from n now) ≡ n
unfolding polls_from
length-polls_from zero now = refl
length-polls_from (suc n) now = ap suc (length-polls_from n (now + audio_stall_poll))

fed : All IsFed (poll_at 0 ∷ [])
fed = (record { runs = refl; has_audio = refl; young = omega arith }, tt)

stalled : Stalled 0 (poll_at 300 ∷ polls_from 12 300)
stalled =
    begins (record { runs = refl; has_audio = refl; since = refl }) (omega arith)
      (polls_from-Silent 12 300)

watch_audio_stall-EndsAudio_example :
    EndsAudio 0 0
      (length (poll_at 0 ∷ []) + 11)
      ((poll_at 0 ∷ []) ++ (poll_at 300 ∷ polls_from 12 300))
watch_audio_stall-EndsAudio_example =
    watch_audio_stall-EndsAudio 0 0 (poll_at 0 ∷ []) (poll_at 300 ∷ polls_from 12 300) fed stalled
      (omega (arith, length-polls_from 12 300))
