-- ===== src/Session/Lifecycle.antt =====
-- ezviz_stream_bridge/session.py: `CloudSession.abort`, `_make_socket`, `_shutdown` and
-- `_launch_remux`, which threads run at the same time. Each is cut where it takes and where it
-- releases the lock.
mod Tasks
pub mod Woken
pub mod Reason
use ezviz_stream_bridge.Prelude.{
  ℕ, Bool, true, false, not, ◌||◌, Option, none, some, List, [], ◌∷◌, ◌++◌, ◌==◌, if◌then◌else◌,
  ◌≡◌,
}
use ezviz_stream_bridge.Rtp.Detect.{contains}
use ezviz_stream_bridge.Proxy.{AbortReason}

-- What the lock guards: the cancel flag, the reason, the socket and the FFmpeg process.
pub record Guarded : Type 0 where
  pub cancelled : Bool
  pub abort_reason : Option AbortReason
  pub socket : Option ℕ
  pub ffmpeg : Option ℕ

-- What a thread still has to do.
pub data Task : Type 0 where
  registers_socket shuts_socket registers_process stops_process : ℕ → Task
  wakes : Option ℕ → Option ℕ → Task

-- A session: what is guarded, the sockets that were shut down, the processes that were told to end
-- and those that have ended, and what the threads have still to do.
pub record Session : Type 0 where
  pub guarded : Guarded
  pub shut : List ℕ
  pub told : List ℕ
  pub exited : List ℕ
  pub tasks : List Task

abbrev pub new_session : Session
new_session = record {
  guarded = record { cancelled = false; abort_reason = none; socket = none; ffmpeg = none };
  shut = [];
  told = [];
  exited = [];
  tasks = [];
}

-- The locked part of `abort`, and what it leaves to do.
unfoldable pub abort : AbortReason → Guarded → Guarded × List Task
abort reason g =
    if g.cancelled
    then (g, [])
    else (record g { cancelled = true; abort_reason = some reason }, wakes g.socket g.ffmpeg ∷ [])

-- The locked part of `_make_socket`, and what it leaves to do.
unfoldable pub register_socket : ℕ → Guarded → Guarded × List Task
register_socket sock g =
    (record g { socket = some sock }, if g.cancelled then shuts_socket sock ∷ [] else [])

-- The locked part of `_launch_remux`, likewise.
unfoldable pub register_process : ℕ → Guarded → Guarded × List Task
register_process process g =
    (record g { ffmpeg = some process }, if g.cancelled then stops_process process ∷ [] else [])

-- `_shutdown`
abbrev pub shut_down : Option ℕ → List ℕ → List ℕ
shut_down none shut = shut
shut_down (some sock) shut = sock ∷ shut

-- The end of `abort`: a process that has not ended is told to.
abbrev pub terminate_running : Option ℕ → List ℕ → List ℕ → List ℕ
terminate_running none exited told = told
terminate_running (some process) exited told =
    if contains exited process then told else process ∷ told

-- What one task does, and the tasks that it leaves in its place.
abbrev pub do_task : Task → Session → Session × List Task
do_task (registers_socket sock) s =
    (record s { guarded = (register_socket sock s.guarded).0 }, (register_socket sock s.guarded).1)
do_task (shuts_socket sock) s = (record s { shut = sock ∷ s.shut }, [])
do_task (registers_process process) s = (
  record s { guarded = (register_process process s.guarded).0 },
  (register_process process s.guarded).1,
)
do_task (stops_process process) s = (record s { told = process ∷ s.told }, [])
do_task (wakes sock process) s = (
  record s { shut = shut_down sock s.shut; told = terminate_running process s.exited s.told },
  [],
)

-- The steps of a session's threads: one calls `abort`, has connected a socket or has started a
-- process, one goes on with what it has to do, or the process ends.
pub data Move : Session → Session → Type 0 where
  aborts :
      (s : Session) (reason : AbortReason)
      → Move s (record s {
        guarded = (abort reason s.guarded).0;
        tasks = (abort reason s.guarded).1 ++ s.tasks;
      })
  connects :
      (s : Session) (sock : ℕ) → Move s (record s { tasks = registers_socket sock ∷ s.tasks })
  launches :
      (s : Session) (process : ℕ)
      → Move s (record s { tasks = registers_process process ∷ s.tasks })
  exits : (s : Session) (process : ℕ) → Move s (record s { exited = process ∷ s.exited })
  goes_on :
      (s : Session) (before after : List Task) (task : Task)
      → s.tasks ≡ before ++ (task ∷ after)
      → Move s (record (do_task task s).0 { tasks = before ++ ((do_task task s).1 ++ after) })

pub data Reaches (from : Session) : Session → Type 0 where
  here : Reaches from from
  next : {s s' : Session} → Reaches from s → Move s s' → Reaches from s'
