-- ===== src/Rtp/ParameterSets.antt =====
-- ezviz_stream_bridge/rtp.py, lines 272 to 329: `parameter_sets`, `_annex_b_head` and
-- `_is_parameter_set`.
pub mod Wire
use ezviz_stream_bridge.Prelude.{
  ℕ, zero, suc, ◌+◌, ◌/◌, Bool, true, false, not, ◌&&◌, Option, none, some, List, [], ◌∷◌, ◌++◌,
  Bytes, length, take, drop, byte_at, ltb, ◌==◌, bit_and, find, if◌then◌else◌,
}
use ezviz_stream_bridge.Rtp.Constants.{
  Codec, h264, hevc, start_code, h264_sps, h264_pps, hevc_nal_header,
}
use ezviz_stream_bridge.Rtp.Detect.{has_bits, contains, hevc_parameter_types}
use ezviz_stream_bridge.Rtp.Depacketizer.{new_depacketizer, feed_all}

-- The end of `_annex_b_head`: the body up to the next start code.
abbrev pub up_to : Bytes → Option ℕ → Bytes
up_to body none = body
up_to body (some end_) = take end_ body

-- `_annex_b_head`
unfoldable pub annex_b_head : Bytes → Option Bytes
annex_b_head stream = elim (find start_code stream) [
  | none ↦ none
  | some start ↦ let body = drop (start + 4) stream in some (up_to body (find start_code body))
]

-- `_is_parameter_set`
unfoldable pub is_parameter_set : Codec → Bytes → Bool
is_parameter_set codec [] = false
is_parameter_set h264 (first ∷ rest) = contains (h264_sps ∷ h264_pps ∷ []) (bit_and first 0x1F)
is_parameter_set hevc (first ∷ rest) =
    let second = byte_at rest 0 in
    if ltb (length (first ∷ rest)) hevc_nal_header
    then false
    else not (has_bits first 0x80)
      && contains hevc_parameter_types (bit_and (first / 2) 0x3F)
      && not (has_bits first 0x01)
      && not (bit_and second 0x07 == 0)

-- The loop over the units of the stream, each round of which takes at least a start code off.
unfoldable pub prelude_loop : ℕ → Codec → Bytes → Bytes → Bytes
prelude_loop zero codec stream prelude = prelude
prelude_loop (suc fuel) codec stream prelude = elim (annex_b_head stream) [
  | none ↦ prelude
  | some unit ↦ elim (find start_code stream) [
    | none ↦ prelude
    | some start ↦
        let rest = drop (start + length unit + 4) stream in
        let kept = prelude_loop fuel codec rest (prelude ++ (start_code ++ unit)) in
        let skipped = prelude_loop fuel codec rest prelude in
        if is_parameter_set codec unit then kept else skipped
  ]
]

-- `parameter_sets`; its `flush` drops what is not complete, and touches no bytes.
module _ (rtp_payload : Bytes → Option Bytes) where
  unfoldable pub parameter_sets : List Bytes → Codec → ℕ → Bytes
  parameter_sets packets codec pt =
      let stream = (feed_all rtp_payload (new_depacketizer codec (some pt)) packets []).1 in
      prelude_loop (suc (length stream)) codec stream []
