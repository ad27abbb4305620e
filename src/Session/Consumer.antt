-- ===== src/Session/Consumer.antt =====
-- ezviz_stream_bridge/session.py: `_pump_ffmpeg_to_consumer`, from FFmpeg's output to the consumer.
pub mod Copies
use ezviz_stream_bridge.Prelude.{
  ℕ, ◌+◌, Bool, true, false, Option, none, some, List, [], ◌∷◌, ◌++◌, Bytes, length, if◌then◌else◌,
}
use ezviz_stream_bridge.Session.Accept.{first_video}

-- What `select` says: it raises, it timed out, or there is something to read, which is nothing at the
-- end of the output.
pub data Select : Type 0 where
  unselectable idle : Select
  ready : Bytes → Select

-- What one round of the loop meets: the cancel flag, `select`, the time since the session's start, and
-- whether the write or the flush raises.
pub record Turn : Type 0 where
  pub cancelled : Bool
  pub selected : Select
  pub elapsed : ℕ
  pub consumer_fails : Bool

-- The two metrics that it keeps, and what the consumer got by calls that returned.
pub record Output : Type 0 where
  pub first_byte_at : Option ℕ
  pub bytes_out : ℕ
  pub consumed : Bytes

abbrev pub new_output : Output
new_output = record { first_byte_at = none; bytes_out = 0; consumed = [] }

-- How the loop stands: it goes on, has returned, or an exception of the consumer leaves it.
pub data Copied : Type 0 where
  copying returned broken : Output → Copied

-- A chunk that was read.
abbrev pub write_chunk : Turn → Bytes → Output → Copied
write_chunk round chunk out =
    let stamped : Output = record out {
      first_byte_at = first_video out.first_byte_at round.elapsed;
    } in
    if round.consumer_fails
    then broken stamped
    else copying (record stamped {
      bytes_out = out.bytes_out + length chunk;
      consumed = out.consumed ++ chunk;
    })

abbrev pub select_round : Turn → Select → Output → Copied
select_round round unselectable out = returned out
select_round round idle out = copying out
select_round round (ready []) out = returned out
select_round round (ready (b ∷ rest)) out = write_chunk round (b ∷ rest) out

-- One round.
abbrev pub copy_round : Turn → Output → Copied
copy_round round out =
    if round.cancelled then returned out else select_round round round.selected out

abbrev pub go_on : Copied → (Output → Copied) → Copied
go_on (copying out) again = again out
go_on (returned out) again = returned out
go_on (broken out) again = broken out

-- `_pump_ffmpeg_to_consumer`
unfoldable pub pump_ffmpeg_to_consumer : List Turn → Output → Copied
pump_ffmpeg_to_consumer [] out = copying out
pump_ffmpeg_to_consumer (round ∷ rounds) out =
    go_on (copy_round round out) (pump_ffmpeg_to_consumer rounds)
