-- ===== src/Tests/ProgramStream.antt =====
-- ezviz_stream_bridge/mpeg_ps.py on a small stream.
use ezviz_stream_bridge.Prelude.{
  ◌≡◌, ap, refl, [], ◌∷◌, ◌++◌, Bytes, arith, length, find, starts_with,
}
use ezviz_stream_bridge.ProgramStream.{
  feed, receive, parse, parse_loop, parse_round, parse_code, pack_size, ParameterSets,
  new_inspector,
}
use ezviz_stream_bridge.ProgramStream.Chunks.{feed_chunks, IsUnhurried, feed_chunks_same}
use ezviz_stream_bridge.ProgramStream.Bounds.{
  feeds, flushes, IsBounded, inspect_all, inspect_all-IsBounded,
}

abbrev pub header : Bytes
header = 0 ∷ 0 ∷ 1 ∷ 0xBA ∷ 0x44 ∷ 0 ∷ 4 ∷ 0 ∷ 4 ∷ 1 ∷ 0 ∷ 0 ∷ 3 ∷ 0xF8 ∷ []

abbrev pub one_each : ParameterSets
one_each = record {
  stream_id = 0xE0;
  pack_header = header;
  sets = record {
    vps_units = (0x40 ∷ 1 ∷ 12 ∷ []) ∷ [];
    sps_units = (0x42 ∷ 1 ∷ 13 ∷ []) ∷ [];
    pps_units = (0x44 ∷ 1 ∷ 14 ∷ []) ∷ [];
  };
}

-- A packet of video: its parameter sets, and the start of a picture.
abbrev pub video_packet : Bytes
video_packet =
    0 ∷ 0 ∷ 1 ∷ 0xE0 ∷ 0 ∷ 26 ∷ 0x80 ∷ 0 ∷ 0 ∷ 0 ∷ 0 ∷ 1 ∷ 0x40 ∷ 1 ∷ 12 ∷ 0 ∷ 0 ∷ 1 ∷ 0x42 ∷ 1 ∷ 13
    ∷ 0 ∷ 0 ∷ 1 ∷ 0x44 ∷ 1 ∷ 14 ∷ 0 ∷ 0 ∷ 1 ∷ 0x26 ∷ 1 ∷ []

IsUnhurried-whole : IsUnhurried new_inspector ((header ++ video_packet) ∷ [])
IsUnhurried-whole = (omega arith, tt)

header_read : (feed new_inspector header).0.pending ≡ []
unfolding feed receive parse parse_loop parse_round parse_code pack_size find starts_with
header_read = refl

IsUnhurried-cut : IsUnhurried new_inspector (header ∷ video_packet ∷ [])
IsUnhurried-cut = (omega arith, (omega (arith, ap length header_read), tt))

feed_chunks_same_example :
    feed_chunks new_inspector ((header ++ video_packet) ∷ [])
    ≡ feed_chunks new_inspector (header ∷ video_packet ∷ [])
feed_chunks_same_example =
    feed_chunks_same ((header ++ video_packet) ∷ []) (header ∷ video_packet ∷ []) refl
      IsUnhurried-whole IsUnhurried-cut

inspect_all-IsBounded_example :
    IsBounded (inspect_all new_inspector (feeds (header ++ video_packet) ∷ flushes ∷ []))
inspect_all-IsBounded_example =
    inspect_all-IsBounded (feeds (header ++ video_packet) ∷ flushes ∷ [])
