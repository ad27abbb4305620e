-- ===== src/Session/AudioPipe.antt =====
-- ezviz_stream_bridge/session.py, lines 377 to 462: `_AudioPipe`. Its lock makes each method one
-- step, so a run of the object is a sequence of calls, whatever threads make them.
pub mod Conserved
pub mod Framing
pub mod Cut
use ezviz_stream_bridge.Prelude.{
  ℕ, ◌+◌, ◌-◌, ◌*◌, Bool, true, false, List, [], ◌∷◌, ◌++◌, Bytes, length, if◌then◌else◌,
}
use ezviz_stream_bridge.Session.Queue.{Answer, Evicted, evict_recount, Drained, drain_queue}

abbrev pub audio_pending_bytes : ℕ
audio_pending_bytes = 256 * 1024

-- The object, with the descriptor beside it: `answers` is what the operating system will answer
-- to the writes to come, and `received` what the reader of the pipe was given so far.
pub record AudioPipe : Type 0 where
  pub pending : List Bytes
  pub pending_bytes : ℕ
  pub dropped : ℕ
  pub closed : Bool
  pub answers : List Answer
  pub received : Bytes

-- `__init__`
abbrev pub new_pipe : List Answer → AudioPipe
new_pipe answers = record {
  pending = [];
  pending_bytes = 0;
  dropped = 0;
  closed = false;
  answers = answers;
  received = [];
}

-- What is still queued never made it out, and is counted.
unfoldable pub give_up : AudioPipe → AudioPipe
give_up p = record p { pending = []; pending_bytes = 0; dropped = p.dropped + p.pending_bytes }

-- `_drain`. `_pending_bytes` falls by each `written`, so by what the reader was given.
unfoldable pub drain : AudioPipe → AudioPipe
unfolding give_up
drain p =
    let d = drain_queue p.pending p.answers in
    let q = record p {
      pending = d.left;
      pending_bytes = p.pending_bytes - length d.sent;
      answers = d.answers;
      received = p.received ++ d.sent;
    } in
    if p.closed then p else if d.failed then give_up q else q

-- The part of `write` before its drain: the chunk joins the queue, and the oldest chunks leave it
-- while it is over its bound.
unfoldable pub enqueue : AudioPipe → Bytes → AudioPipe
enqueue p frames =
    let e =
      evict_recount audio_pending_bytes (p.pending ++ (frames ∷ []))
        (p.pending_bytes + length frames) in
    record p { pending = e.kept; pending_bytes = e.kept_bytes; dropped = p.dropped + e.lost_bytes }

unfoldable pub write : AudioPipe → Bytes → AudioPipe
unfolding drain enqueue
write p frames = if p.closed then p else drain (enqueue p frames)

unfoldable pub flush : AudioPipe → AudioPipe
flush p = drain p

unfoldable pub close : AudioPipe → AudioPipe
unfolding give_up
close p = if p.closed then p else give_up (record p { closed = true })

-- The calls that the session makes.
pub data Call : Type 0 where
  writes : Bytes → Call
  flushes closes : Call

unfoldable pub step : AudioPipe → Call → AudioPipe
step p (writes frames) = write p frames
step p flushes = flush p
step p closes = close p

unfoldable pub run : AudioPipe → List Call → AudioPipe
run p [] = p
run p (call ∷ calls) = run (step p call) calls
