-- ===== src/Session/Run/Verdict.antt =====
-- About the errors that `run` raises.
use ezviz_stream_bridge.Prelude.{◌≡◌, ◌≢◌, Bool, false, Option, none, some}
use ezviz_stream_bridge.Session.Lifecycle.{Guarded, Session}
use ezviz_stream_bridge.Session.Run.{
  ReturnCode, exited, signalled, Body, body_ends, Ended, returns, try_raises, writer_raises,
  ffmpeg_failed,
}

-- When FFmpeg's status is an error of the session: it came to its end, nobody had aborted it, the
-- pump's thread left no error, and FFmpeg was reaped with that status, which is neither 0 nor that of
-- a process which SIGTERM ended.
pub record Blames (status : ReturnCode) (body : Body) (g : Guarded) (has_error : Bool)
    (code : Option ReturnCode) : Type 0 where
  pub ended : body ≡ body_ends
  pub nobody : g.abort_reason ≡ none
  pub clean : has_error ≡ false
  pub reaped : code ≡ some status
  pub failed : status ≢ exited 0
  pub not_terminated : status ≢ signalled 15

abbrev pub failure_of : Ended → Option ReturnCode
failure_of returns = none
failure_of try_raises = none
failure_of writer_raises = none
failure_of (ffmpeg_failed code) = some code
