-- ===== src/Session/AudioPipe/Cut.antt =====
-- About a chunk that is cut in two because the reader of the pipe falls behind.
use ezviz_stream_bridge.Prelude.{false, List, [], ◌∷◌, Bytes, length, map}
use ezviz_stream_bridge.Session.Queue.{Answer, accepts, blocks, sum_lengths}
use ezviz_stream_bridge.Session.AudioPipe.{AudioPipe}

-- A descriptor that has no room, once for each chunk.
abbrev pub no_room : List Bytes → List Answer
no_room [] = []
no_room (chunk ∷ chunks) = blocks ∷ no_room chunks

-- A descriptor that takes each of the chunks whole.
abbrev pub room_for : List Bytes → List Answer
room_for chunks = map (λ chunk. accepts (length chunk)) chunks

-- An open pipe that dropped nothing yet.
abbrev waiting_pipe : List Bytes → List Answer → Bytes → AudioPipe
waiting_pipe pending answers received = record {
  pending = pending;
  pending_bytes = sum_lengths pending;
  dropped = 0;
  closed = false;
  answers = answers;
  received = received;
}
