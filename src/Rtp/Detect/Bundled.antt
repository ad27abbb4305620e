-- ===== src/Rtp/Detect/Bundled.antt =====
-- About `detect_codec` on an aggregate.
use ezviz_stream_bridge.Prelude.{
  ℕ, zero, suc, ◌+◌, ◌/◌, ◌%◌, ◌≤◌, ◌<◌, ◌≡◌, refl, Bool, false, ◌||◌, Option, none, some, List, [],
  ◌∷◌, ◌++◌, Bytes, All, arith, length, drop, slice, from_bytes, length-append, if◌then◌else◌,
}
use ezviz_stream_bridge.Prelude.Bits.{bit_and-0x80, bit_and-0x1f}
use ezviz_stream_bridge.Rtp.Constants.{Codec, h264, hevc}
use ezviz_stream_bridge.Rtp.Packing.{
  IsSized, join_units, length-rest, room, read_size, read_unit, read_rest,
}
use ezviz_stream_bridge.Rtp.Detect.{
  same_codec, detect_parameter_set, aggregated_codec_loop, aggregated_codec, detect_codec,
}
use ezviz_stream_bridge.Rtp.Detect.Header.{detect_parameter_set-none}

-- One of the units is a parameter set of the codec.
abbrev pub names : Codec → List Bytes → Bool
names codec [] = false
names codec (unit ∷ units) = same_codec (detect_parameter_set unit) codec || names codec units

abbrev pub named : Codec → List Bytes → Option Codec
named codec units = if names codec units then some codec else none

aggregated_codec_loop-join_units :
    (fuel : ℕ) (payload : Bytes) (offset : ℕ) (codec : Codec) (units : List Bytes)
    → drop offset payload ≡ join_units units
    → All IsSized units
    → length (join_units units) ≤ fuel
    → aggregated_codec_loop fuel payload offset codec ≡ named codec units
unfolding aggregated_codec_loop
aggregated_codec_loop-join_units zero payload offset codec [] here sized enough = refl
aggregated_codec_loop-join_units (suc fuel) payload offset codec [] here sized enough =
    ground (arith, length-rest payload offset [] here)
aggregated_codec_loop-join_units zero payload offset codec (u ∷ us) here sized enough =
    absurd (omega arith)
aggregated_codec_loop-join_units (suc fuel) payload offset codec (u ∷ us) here (size, sized)
      enough =
    let rest = join_units us in
    ground (
      arith,
      room payload offset u rest here,
      read_size payload offset u rest here,
      read_unit payload offset u rest here (from_bytes (slice payload offset (offset + 2))),
      read_rest payload offset u rest here (length u) refl,
      length-append u rest,
      aggregated_codec_loop-join_units fuel payload (offset + (2 + length u)) codec us,
    )

pub aggregated_codec-join_units :
    (payload : Bytes) (offset : ℕ) (codec : Codec) (units : List Bytes)
    → drop offset payload ≡ join_units units
    → All IsSized units
    → aggregated_codec payload offset codec ≡ named codec units
unfolding aggregated_codec
aggregated_codec-join_units payload offset codec units here sized =
    aggregated_codec_loop-join_units (length payload) payload offset codec units here sized
      (omega (arith, length-rest payload offset (join_units units) here))

detect_codec-stap_a :
    (header : ℕ) (units : List Bytes)
    → header < 128
    → header % 32 ≡ 24
    → All IsSized units
    → detect_codec (header ∷ join_units units) ≡ named h264 units
unfolding detect_codec
detect_codec-stap_a header [] lt type sized = unfold detect_parameter_set in refl
detect_codec-stap_a header (u ∷ us) lt type sized = ground (
  arith,
  detect_parameter_set-none header (length u / 256) ((length u % 256) ∷ (u ++ join_units us)),
  bit_and-0x80 header,
  bit_and-0x1f header,
  aggregated_codec-join_units (header ∷ join_units (u ∷ us)) 1 h264 (u ∷ us) refl sized,
)

detect_codec-ap :
    (layer : ℕ) (units : List Bytes)
    → layer < 256
    → All IsSized units
    → detect_codec (96 ∷ layer ∷ join_units units) ≡ named hevc units
unfolding detect_codec
detect_codec-ap layer units lt sized = ground (
  arith,
  detect_parameter_set-none 96 layer (join_units units),
  bit_and-0x80 96,
  bit_and-0x1f 96,
  aggregated_codec-join_units (96 ∷ layer ∷ join_units units) 2 hevc units refl sized,
)

-- The header of an aggregate: of a STAP-A with any reserved bits, or of a single-layer AP.
pub data IsAggregate : Codec → Bytes → Type 0 where
  stap_a : (header : ℕ) → header < 128 → header % 32 ≡ 24 → IsAggregate h264 (header ∷ [])
  ap : (layer : ℕ) → layer < 256 → IsAggregate hevc (96 ∷ layer ∷ [])

-- A STAP-A names H.264 exactly when one of its units is an H.264 SPS, and a single-layer AP names
-- HEVC exactly when one of its units is an HEVC VPS, SPS or PPS, at any place in it; the reserved
-- bits of the header of a STAP-A play no part.
pub detect_codec-join_units :
    (codec : Codec) (header : Bytes) (units : List Bytes)
    → IsAggregate codec header
    → All IsSized units
    → detect_codec (header ++ join_units units) ≡ named codec units
detect_codec-join_units codec header units (stap_a first lt type) sized =
    detect_codec-stap_a first units lt type sized
detect_codec-join_units codec header units (ap layer lt) sized =
    detect_codec-ap layer units lt sized
