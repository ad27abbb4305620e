-- ===== src/Session/Queue.antt =====
-- The two loops that `_AudioPipe` and `_VideoPipe` share (ezviz_stream_bridge/session.py, lines
-- 408 to 418, 442 to 462, 490 to 501 and 524 to 539): the bound on the queue, and the drain into a
-- non-blocking descriptor.
pub mod Laws
use ezviz_stream_bridge.Prelude.{
  ℕ, ◌+◌, ◌-◌, Bool, true, false, List, [], ◌∷◌, ◌++◌, Bytes, length, take, drop, min, ltb,
  if◌then◌else◌,
}

-- What the operating system answers to one `os.write`: room for so many bytes, of which the call
-- takes what it is given at most; `BlockingIOError`; or another `OSError`.
pub data Answer : Type 0 where
  accepts : ℕ → Answer
  blocks fails : Answer

-- A queue is a deque of chunks with the number of bytes in it.
abbrev pub sum_lengths : List Bytes → ℕ
sum_lengths [] = 0
sum_lengths (chunk ∷ chunks) = length chunk + sum_lengths chunks

-- What is left when the oldest chunks have been dropped until the bound holds, or one chunk is
-- left; the chunks and the bytes that were dropped are counted.
pub record Evicted : Type 0 where
  pub kept : List Bytes
  pub kept_bytes : ℕ
  pub lost_bytes : ℕ
  pub lost_chunks : ℕ

-- `while pending_bytes > bound and len(pending) > 1`, as `_VideoPipe.write` has it: the counter falls
-- by each dropped chunk.
unfoldable pub evict : ℕ → List Bytes → ℕ → Evicted
evict bound [] bytes = record { kept = []; kept_bytes = bytes; lost_bytes = 0; lost_chunks = 0 }
evict bound (chunk ∷ []) bytes = record {
  kept = chunk ∷ [];
  kept_bytes = bytes;
  lost_bytes = 0;
  lost_chunks = 0;
}
evict bound (chunk ∷ next ∷ rest) bytes =
    let more = evict bound (next ∷ rest) (bytes - length chunk) in
    if ltb bound bytes
    then record {
      kept = more.kept;
      kept_bytes = more.kept_bytes;
      lost_bytes = length chunk + more.lost_bytes;
      lost_chunks = 1 + more.lost_chunks;
    }
    else record { kept = chunk ∷ next ∷ rest; kept_bytes = bytes; lost_bytes = 0; lost_chunks = 0 }

-- The same loop as `_AudioPipe.write` has it: it counts what is left again after each drop.
unfoldable pub evict_recount : ℕ → List Bytes → ℕ → Evicted
evict_recount bound [] bytes = record {
  kept = [];
  kept_bytes = bytes;
  lost_bytes = 0;
  lost_chunks = 0;
}
evict_recount bound (chunk ∷ []) bytes = record {
  kept = chunk ∷ [];
  kept_bytes = bytes;
  lost_bytes = 0;
  lost_chunks = 0;
}
evict_recount bound (chunk ∷ next ∷ rest) bytes =
    let more = evict_recount bound (next ∷ rest) (sum_lengths (next ∷ rest)) in
    if ltb bound bytes
    then record {
      kept = more.kept;
      kept_bytes = more.kept_bytes;
      lost_bytes = length chunk + more.lost_bytes;
      lost_chunks = 1 + more.lost_chunks;
    }
    else record { kept = chunk ∷ next ∷ rest; kept_bytes = bytes; lost_bytes = 0; lost_chunks = 0 }

-- The outcome of a drain: what is still queued, what the reader was given, the answers that were
-- not asked for, and whether the descriptor failed.
pub record Drained : Type 0 where
  pub left : List Bytes
  pub sent : Bytes
  pub answers : List Answer
  pub failed : Bool

-- `while self._pending`: write the oldest chunk, and go on only when it went out whole. Where the
-- list of answers ends, the descriptor blocks.
unfoldable pub drain_queue : List Bytes → List Answer → Drained
drain_queue [] answers = record { left = []; sent = []; answers = answers; failed = false }
drain_queue (chunk ∷ rest) [] = record {
  left = chunk ∷ rest;
  sent = [];
  answers = [];
  failed = false;
}
drain_queue (chunk ∷ rest) (blocks ∷ answers) = record {
  left = chunk ∷ rest;
  sent = [];
  answers = answers;
  failed = false;
}
drain_queue (chunk ∷ rest) (fails ∷ answers) = record {
  left = chunk ∷ rest;
  sent = [];
  answers = answers;
  failed = true;
}
drain_queue (chunk ∷ rest) (accepts room ∷ answers) =
    let written = min room (length chunk) in
    let more = drain_queue rest answers in
    if ltb written (length chunk)
    then record {
      left = drop written chunk ∷ rest;
      sent = take written chunk;
      answers = answers;
      failed = false;
    }
    else record more { sent = chunk ++ more.sent }
