-- ===== src/ProgramStream/MakePrelude.antt =====
-- About `make_prelude`, beside the reader of PES packets.
use ezviz_stream_bridge.Prelude.{◌+◌, ◌/◌, ◌%◌, ◌∷◌, ◌++◌, Bytes, length}
use ezviz_stream_bridge.ProgramStream.{start_prefix, ParameterSets, as_annex_b}

-- The PES packet behind the pack header.
abbrev pub video_pes : ParameterSets → Bytes
video_pes cached =
    let packet_length = length (as_annex_b cached.sets) + 8 in
    start_prefix
    ++ (cached.stream_id
        ∷ (packet_length / 256)
        ∷ (packet_length % 256)
        ∷ (0x80 ∷ 0x80 ∷ 0x05 ∷ 0x21 ∷ 0x00 ∷ 0x01 ∷ 0x00 ∷ 0x01 ∷ as_annex_b cached.sets))
