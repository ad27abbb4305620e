-- ===== src/Session/Run.antt =====
-- ezviz_stream_bridge/session.py: how `CloudSession.run` ends, and `_on_deadline`.
pub mod Verdict
use ezviz_stream_bridge.Prelude.{
  ℕ, Bool, true, false, not, ◌||◌, ◌&&◌, ◌==◌, Option, none, some, List, [], ◌∷◌, if◌then◌else◌,
}
use ezviz_stream_bridge.Proxy.{AbortReason, client_gone, no_video, finished}
use ezviz_stream_bridge.Session.Lifecycle.{Guarded, Task, abort}

-- The return code of a process: it exited with a status, or a signal ended it; Python writes the
-- latter as a negative number.
pub data ReturnCode : Type 0 where
  exited signalled : ℕ → ReturnCode

-- `_EXPECTED_FFMPEG_CODES`
abbrev pub is_expected : ReturnCode → Bool
is_expected (exited status) = status == 0
is_expected (signalled signal) = signal == 15

-- How the body of the `try` ends: an exception leaves it, it returns because the session was cancelled
-- while the leading packets were read, or it comes to its end, with FFmpeg running until the teardown.
pub data Body : Type 0 where
  body_raises body_returns body_ends : Body

-- How `run` ends.
pub data Ended : Type 0 where
  returns try_raises writer_raises : Ended
  ffmpeg_failed : ReturnCode → Ended

-- `self.abort_reason == "finished"`
abbrev pub is_finished : Option AbortReason → Bool
is_finished none = false
is_finished (some client_gone) = false
is_finished (some no_video) = false
is_finished (some finished) = true

-- The check of FFmpeg's return code, `none` where the process has not been reaped.
abbrev pub check_code : Option AbortReason → Option ReturnCode → Ended
check_code reason none = returns
check_code reason (some code) =
    if is_finished reason && not (is_expected code) then ffmpeg_failed code else returns

-- The `finally` aborts; what follows it is what the other cases do not reach.
unfoldable pub end_run : Body → Guarded → Bool → Option ReturnCode → Ended
end_run body_raises g has_error code = try_raises
end_run body_returns g has_error code = returns
end_run body_ends g has_error code =
    if has_error then writer_raises else check_code (abort finished g).0.abort_reason code

-- `_on_deadline`
unfoldable pub on_deadline : Option ℕ → Guarded → Guarded × List Task
on_deadline none g = abort no_video g
on_deadline (some first_video_at) g = (g, [])
