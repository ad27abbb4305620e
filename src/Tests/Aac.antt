-- ===== src/Tests/Aac.antt =====
-- ezviz_stream_bridge/rtp.py at concrete packets: the audio half.
use ezviz_stream_bridge.Prelude.{
  ◌+◌, ◌*◌, ◌≤◌, ◌<◌, ◌≡◌, ◌↔◌, refl, inl, true, Option, none, some, List, [], ◌∷◌, ◌++◌, Bytes,
  All, arith, length, take, drop, concat, from_bytes, ltb, if◌then◌else◌,
}
use ezviz_stream_bridge.Aac.Section.{parse_au_section}
use ezviz_stream_bridge.Aac.Section.Exact.{parse_au_section_exact}
use ezviz_stream_bridge.Aac.Section.RoundTrip.{
  AccessUnit, IsAccessUnit, units_of, au_payload, parse_au_section-au_payload,
}
use ezviz_stream_bridge.Aac.Adts.{
  aac_lc_16k_mono, object_type_of, frequency_of, channels_of, adts_frame, carries_aac_hbr,
}
use ezviz_stream_bridge.Aac.Adts.Fields.{
  read_profile, read_frequency, read_channels, read_length, read_frames, adts_frames,
  adts_frame_fields, read_frames-adts_frames,
}
use ezviz_stream_bridge.Aac.Depacketizer.{AacHbrDepacketizer, feed}
use ezviz_stream_bridge.Aac.Depacketizer.Framing.{framed, feed-carries_aac_hbr, feed-au_payload}

-- An unwrap of packets with a header of twelve bytes and nothing else.
unwrap : Bytes → Option Bytes
unwrap packet = if ltb (length packet) 12 then none else some (drop 12 packet)

abbrev packet : Bytes → Bytes
packet payload = 128 ∷ 104 ∷ 0 ∷ 1 ∷ 0 ∷ 0 ∷ 0 ∷ 0 ∷ 0 ∷ 0 ∷ 0 ∷ 1 ∷ payload

abbrev two_units : List AccessUnit
two_units =
    record { index = 0; unit = 1 ∷ 64 ∷ 34 ∷ [] } ∷ record { index = 0; unit = 1 ∷ 24 ∷ [] } ∷ []

two_units-IsAccessUnit : All IsAccessUnit two_units
two_units-IsAccessUnit = (
  record { index_fits = omega arith; some_bytes = omega arith; size_fits = omega arith },
  (record { index_fits = omega arith; some_bytes = omega arith; size_fits = omega arith }, tt),
)

abbrev depacketizer : AacHbrDepacketizer
depacketizer = record {
  config = aac_lc_16k_mono;
  expected = none;
  packets = 0;
  aus = 0;
  dropped = 0;
  skipped = 0;
}

unwrap-packet : (payload : Bytes) → unwrap (packet payload) ≡ some payload
unfolding unwrap
unwrap-packet payload = ground arith

parse_au_section-au_payload_example :
    parse_au_section (au_payload two_units) ≡ some (units_of two_units)
parse_au_section-au_payload_example =
    parse_au_section-au_payload two_units two_units-IsAccessUnit (omega arith) (omega arith)

parse_two_units : parse_au_section (au_payload two_units) ≡ some (units_of two_units)
parse_two_units =
    parse_au_section-au_payload two_units two_units-IsAccessUnit (omega arith) (omega arith)

parse_au_section_exact_example :
    (1 ≤ length (units_of two_units))
    × (16 * length (units_of two_units) ≡ from_bytes (take 2 (au_payload two_units)))
    × (au_payload two_units
        ≡ take (2 + 2 * length (units_of two_units)) (au_payload two_units)
          ++ concat (units_of two_units))
    × All (λ unit. 1 ≤ length unit) (units_of two_units)
parse_au_section_exact_example =
    parse_au_section_exact (au_payload two_units) (units_of two_units) parse_two_units

adts_frame_fields_example :
    (read_profile (adts_frame (1 ∷ 24 ∷ []) aac_lc_16k_mono) + 1 ≡ object_type_of aac_lc_16k_mono)
    × (read_frequency (adts_frame (1 ∷ 24 ∷ []) aac_lc_16k_mono) ≡ frequency_of aac_lc_16k_mono)
    × (read_channels (adts_frame (1 ∷ 24 ∷ []) aac_lc_16k_mono) ≡ channels_of aac_lc_16k_mono)
    × (read_length (adts_frame (1 ∷ 24 ∷ []) aac_lc_16k_mono)
        ≡ length (adts_frame (1 ∷ 24 ∷ []) aac_lc_16k_mono))
    × (drop 7 (adts_frame (1 ∷ 24 ∷ []) aac_lc_16k_mono) ≡ 1 ∷ 24 ∷ [])
adts_frame_fields_example =
    adts_frame_fields (1 ∷ 24 ∷ []) aac_lc_16k_mono (omega arith) (omega arith) (omega arith)

read_frames-adts_frames_example :
    read_frames 3 (adts_frames aac_lc_16k_mono (units_of two_units)) ≡ units_of two_units
read_frames-adts_frames_example =
    read_frames-adts_frames aac_lc_16k_mono (units_of two_units) 3 (omega arith, (omega arith, tt))
      (omega arith)

feed-carries_aac_hbr_example :
    (feed unwrap depacketizer (packet (au_payload two_units))
      ≡ framed depacketizer (parse_au_section (au_payload two_units)))
    × ((carries_aac_hbr (au_payload two_units) ≡ true)
        ↔ (0 < length (feed unwrap depacketizer (packet (au_payload two_units))).1))
feed-carries_aac_hbr_example =
    feed-carries_aac_hbr unwrap depacketizer (packet (au_payload two_units)) (au_payload two_units)
      (unwrap-packet (au_payload two_units)) (λ p. cc) (inl refl)

feed-au_payload_example :
    (read_frames 3 (feed unwrap depacketizer (packet (au_payload two_units))).1
      ≡ units_of two_units)
    × ((feed unwrap depacketizer (packet (au_payload two_units))).0
        ≡ record depacketizer { packets = 0 + 1; aus = 0 + 2 })
feed-au_payload_example =
    feed-au_payload unwrap depacketizer (packet (au_payload two_units)) two_units 3
      (unwrap-packet (au_payload two_units)) (inl refl) two_units-IsAccessUnit
      (omega arith, (omega arith, tt)) (omega arith) (omega arith) (omega arith)
