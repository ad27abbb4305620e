-- ===== src/Session/VideoPipe.antt =====
-- ezviz_stream_bridge/session.py, lines 465 to 539: `_VideoPipe`. It has no lock: only the pump's
-- thread calls it. A call that raises is a `raised`, with the
-- object as the call left it.
pub mod Conserved
use ezviz_stream_bridge.Prelude.{
  ℕ, ◌+◌, ◌-◌, ◌*◌, Bool, true, false, List, [], ◌∷◌, ◌++◌, Bytes, length, if◌then◌else◌,
}
use ezviz_stream_bridge.Session.Queue.{Answer, Evicted, evict, Drained, drain_queue}

abbrev pub video_pending_bytes : ℕ
video_pending_bytes = 8 * 1024 * 1024

-- The object, with the descriptor beside it, as for the audio.
pub record VideoPipe : Type 0 where
  pub pending : List Bytes
  pub pending_bytes : ℕ
  pub dropped : ℕ
  pub dropped_chunks : ℕ
  pub closed : Bool
  pub answers : List Answer
  pub received : Bytes

-- `__init__`
abbrev pub new_video_pipe : List Answer → VideoPipe
new_video_pipe answers = record {
  pending = [];
  pending_bytes = 0;
  dropped = 0;
  dropped_chunks = 0;
  closed = false;
  answers = answers;
  received = [];
}

-- How a call ends: it returns, or it raises, with the object as it left it.
pub data Outcome : Type 0 where
  returned : VideoPipe → Outcome
  raised : VideoPipe → Outcome

-- `_drain`: an `OSError` of the descriptor goes out of it, and leaves the chunk in the queue.
unfoldable pub drain : VideoPipe → Outcome
drain p =
    let d = drain_queue p.pending p.answers in
    let q = record p {
      pending = d.left;
      pending_bytes = p.pending_bytes - length d.sent;
      answers = d.answers;
      received = p.received ++ d.sent;
    } in
    if p.closed then returned p else if d.failed then raised q else returned q

-- The part of `write` between its guard and its drain.
unfoldable pub enqueue : VideoPipe → Bytes → VideoPipe
enqueue p chunk =
    let e =
      evict video_pending_bytes (p.pending ++ (chunk ∷ [])) (p.pending_bytes + length chunk) in
    record p {
      pending = e.kept;
      pending_bytes = e.kept_bytes;
      dropped = p.dropped + e.lost_bytes;
      dropped_chunks = p.dropped_chunks + e.lost_chunks;
    }

-- A closed pipe raises `BrokenPipeError`.
unfoldable pub write : VideoPipe → Bytes → Outcome
unfolding drain enqueue
write p chunk = if p.closed then raised p else drain (enqueue p chunk)

unfoldable pub flush : VideoPipe → Outcome
flush p = drain p

-- It may be called twice: the second call finds an empty queue.
unfoldable pub close : VideoPipe → VideoPipe
close p = record p {
  pending = [];
  pending_bytes = 0;
  dropped = p.dropped + p.pending_bytes;
  dropped_chunks = p.dropped_chunks + length p.pending;
  closed = true;
}

-- The calls that the session makes.
pub data VideoCall : Type 0 where
  video_writes : Bytes → VideoCall
  video_flushes video_closes : VideoCall

-- The object after a call, whether it raised or not: the session's `finally` still closes it.
unfoldable pub after : Outcome → VideoPipe
after (returned p) = p
after (raised p) = p

unfoldable pub step : VideoPipe → VideoCall → VideoPipe
step p (video_writes chunk) = after (write p chunk)
step p video_flushes = after (flush p)
step p video_closes = close p

unfoldable pub run : VideoPipe → List VideoCall → VideoPipe
run p [] = p
run p (call ∷ calls) = run (step p call) calls
