-- ===== src/Tests/Session.antt =====
-- The pipes of ezviz_stream_bridge/session.py in concrete runs.
use mathlib.Core.List.{Sublist}
use ezviz_stream_bridge.Prelude.{ℕ, zero, suc, false, List, [], ◌∷◌, Bytes}
use ezviz_stream_bridge.Session.Queue.{Answer, accepts, blocks, fails}
use ezviz_stream_bridge.Session.AudioPipe.{new_pipe, writes, flushes, closes, Call, run}
use ezviz_stream_bridge.Session.AudioPipe.Conserved.{IsSound, offered_by}
use ezviz_stream_bridge.Session.AudioPipe.Framing.{written, run-new_pipe-Sublist}
use ezviz_stream_bridge.Session.VideoPipe.{
  VideoCall, video_writes, video_flushes, video_closes, new_video_pipe,
}
use ezviz_stream_bridge.Session.VideoPipe
use ezviz_stream_bridge.Session.VideoPipe.Conserved
use ezviz_stream_bridge.Session.VideoPipe.Conserved.{offered, run-new_video_pipe-IsSound}

abbrev answers : List Answer
answers = accepts 2 ∷ blocks ∷ accepts 10 ∷ fails ∷ []

abbrev calls : List Call
calls = writes (1 ∷ 2 ∷ 3 ∷ []) ∷ writes (4 ∷ []) ∷ flushes ∷ closes ∷ writes (5 ∷ []) ∷ []

abbrev video_calls : List VideoCall
video_calls =
    video_writes (1 ∷ 2 ∷ 3 ∷ []) ∷ video_flushes ∷ video_closes ∷ video_writes (5 ∷ []) ∷ []

run-new_pipe-Sublist_example :
    IsSound (offered_by false calls) (run (new_pipe answers) calls)
    × Sublist (run (new_pipe answers) calls).received (written calls)
run-new_pipe-Sublist_example = run-new_pipe-Sublist calls answers

run-new_video_pipe-IsSound_example :
    Conserved.IsSound
      (offered false video_calls)
      (VideoPipe.run (new_video_pipe answers) video_calls)
run-new_video_pipe-IsSound_example = run-new_video_pipe-IsSound video_calls answers

-- A chunk of so many bytes.
silence : ℕ → Bytes
silence zero = []
silence (suc n) = 0 ∷ silence n

-- The frames of two packets that arrive while FFmpeg reads nothing.
abbrev behind : List Bytes
behind = silence 90000 ∷ silence 90000 ∷ []
