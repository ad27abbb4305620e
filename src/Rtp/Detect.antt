-- ===== src/Rtp/Detect.antt =====
-- ezviz_stream_bridge/rtp.py, lines 177 to 269: the codec that an RTP payload names.
pub mod Header
pub mod Bundled
use ezviz_stream_bridge.Prelude.{
  ℕ, zero, suc, ◌+◌, ◌/◌, ◌*◌, Bool, true, false, not, ◌&&◌, ◌||◌, Option, none, some, List, [],
  ◌∷◌, Bytes, length, byte_at, slice, from_bytes, ltb, leb, ◌==◌, bit_and, if◌then◌else◌,
}
use ezviz_stream_bridge.Rtp.Constants.{
  Codec, h264, hevc, h264_sps, h264_stap_a, hevc_vps, hevc_sps, hevc_pps, hevc_ap, detection_bytes,
  h264_profiles, rtp_header_bytes, rtp_version,
}

-- `value & mask` as a truth value
abbrev pub has_bits : ℕ → ℕ → Bool
has_bits value mask = not (bit_and value mask == 0)

-- `value in values`
unfoldable pub contains : List ℕ → ℕ → Bool
contains [] value = false
contains (v ∷ values) value = value == v || contains values value

abbrev pub same_codec : Option Codec → Codec → Bool
same_codec (some h264) h264 = true
same_codec (some hevc) hevc = true
same_codec _ _ = false

abbrev pub hevc_parameter_types : List ℕ
hevc_parameter_types = hevc_vps ∷ hevc_sps ∷ hevc_pps ∷ []

unfoldable pub detect_parameter_set : Bytes → Option Codec
unfolding contains
detect_parameter_set unit =
    let first = byte_at unit 0 in
    let second = byte_at unit 1 in
    if ltb (length unit) detection_bytes || has_bits first 0x80
    then none
    else if contains hevc_parameter_types (bit_and (first / 2) 0x3F)
        && bit_and first 0x01 == 0
        && has_bits second 0x07
    then some hevc
    else if bit_and first 0x1F == h264_sps && contains h264_profiles second
    then some h264
    else none

-- The `while` loop: each round moves `offset` by at least three bytes.
unfoldable pub aggregated_codec_loop : ℕ → Bytes → ℕ → Codec → Option Codec
aggregated_codec_loop zero payload offset codec = none
aggregated_codec_loop (suc fuel) payload offset codec =
    let size = from_bytes (slice payload offset (offset + 2)) in
    let unit = slice payload (offset + 2) (offset + 2 + size) in
    let rest = aggregated_codec_loop fuel payload (offset + (2 + size)) codec in
    if leb (offset + 2) (length payload)
    then (if size == 0 || not (length unit == size)
        then none
        else if same_codec (detect_parameter_set unit) codec
        then some codec
        else rest)
    else none

unfoldable pub aggregated_codec : Bytes → ℕ → Codec → Option Codec
aggregated_codec payload offset codec = aggregated_codec_loop (length payload) payload offset codec

unfoldable pub payload_type : Bytes → Option ℕ
payload_type packet =
    if ltb (length packet) rtp_header_bytes || not (byte_at packet 0 / 64 == rtp_version)
    then none
    else some (bit_and (byte_at packet 1) 0x7F)

unfoldable pub detect_codec : Bytes → Option Codec
detect_codec payload = elim (detect_parameter_set payload) [
  | some codec ↦ some codec
  | none ↦
      let first = byte_at payload 0 in
      if ltb (length payload) detection_bytes || has_bits first 0x80
      then none
      else if bit_and first 0x1F == h264_stap_a
      then aggregated_codec payload 1 h264
      else if first == hevc_ap * 2
      then aggregated_codec payload 2 hevc
      else none
]
