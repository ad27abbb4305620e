-- ===== src/Aac/Depacketizer.antt =====
-- ezviz_stream_bridge/rtp.py, lines 677 to 735: `AacHbrDepacketizer`.
pub mod Framing
use ezviz_stream_bridge.Prelude.{
  ℕ, ◌+◌, Bool, true, false, not, ◌&&◌, ◌||◌, Option, none, some, List, [], ◌∷◌, ◌++◌, Bytes,
  length, ltb, is_some, same_option, if◌then◌else◌,
}
use ezviz_stream_bridge.Rtp.Detect.{payload_type}
use ezviz_stream_bridge.Aac.Section.{parse_au_section}
use ezviz_stream_bridge.Aac.Adts.{
  object_type_of, adts_max_au_bytes, adts_max_object_type, adts_frame,
}

pub record AacHbrDepacketizer : Type 0 where
  pub config : ℕ
  pub expected : Option ℕ
  pub packets : ℕ
  pub aus : ℕ
  pub dropped : ℕ
  pub skipped : ℕ

-- `__init__`; `none` is its `ValueError`, and `expected` is the field `payload_type`.
unfoldable pub new_aac_depacketizer : ℕ → Option ℕ → Option AacHbrDepacketizer
new_aac_depacketizer config expected =
    if ltb (object_type_of config) 1 || ltb adts_max_object_type (object_type_of config)
    then none
    else some (record {
      config = config;
      expected = expected;
      packets = 0;
      aus = 0;
      dropped = 0;
      skipped = 0;
    })

-- The loop over the units; `none` is its early return, at a unit too large for a frame.
unfoldable pub frame_units : ℕ → List Bytes → Bytes → Option Bytes
frame_units config [] frames = some frames
frame_units config (unit ∷ units) frames =
    let rest = frame_units config units (frames ++ adts_frame unit config) in
    if ltb adts_max_au_bytes (length unit) then none else rest

-- `feed` on a payload of the audio's own type, after the packet was counted.
unfoldable pub feed_units : AacHbrDepacketizer → Option (List Bytes) → AacHbrDepacketizer × Bytes
feed_units d none = (record d { dropped = d.dropped + 1 }, [])
feed_units d (some units) = elim (frame_units d.config units []) [
  | none ↦ (record d { dropped = d.dropped + 1 }, [])
  | some frames ↦ (record d { aus = d.aus + length units }, frames)
]

abbrev pub is_empty : Bytes → Bool
is_empty [] = true
is_empty (b ∷ rest) = false

unfoldable pub feed_payload : AacHbrDepacketizer → Bytes → Bytes → AacHbrDepacketizer × Bytes
feed_payload d packet payload =
    if is_some d.expected && not (same_option (payload_type packet) d.expected)
    then (record d { skipped = d.skipped + 1 }, [])
    else if is_empty payload
    then (d, [])
    else feed_units d (parse_au_section payload)

-- `rtp_payload` is `pyezvizapi.stream.rtp_payload`; `none` is the `PyEzvizError` that it raises.
module _ (rtp_payload : Bytes → Option Bytes) where
  unfoldable pub feed : AacHbrDepacketizer → Bytes → AacHbrDepacketizer × Bytes
  feed d packet = elim (rtp_payload packet) [
    | none ↦ (record d { dropped = d.dropped + 1 }, [])
    | some payload ↦ feed_payload (record d { packets = d.packets + 1 }) packet payload
  ]
