-- ===== src/Session/Prefix.antt =====
-- ezviz_stream_bridge/session.py, lines 205 to 374: what the leading packets of a session are.
pub mod Classify
use ezviz_stream_bridge.Prelude.{
  ℕ, zero, suc, ◌+◌, ◌-◌, ◌*◌, ◌/◌, Bool, true, false, not, ◌&&◌, ◌||◌, Option, none, some, List,
  [], ◌∷◌, ◌++◌, Bytes, length, byte_at, ltb, leb, ◌==◌, bit_and, find, find_from, same_option,
  is_some, if◌then◌else◌,
}
use ezviz_stream_bridge.Rtp.Constants.{Codec}
use ezviz_stream_bridge.Rtp.Detect.{detect_codec}
use ezviz_stream_bridge.Aac.Section.{parse_au_section}
use ezviz_stream_bridge.Aac.Adts.{aac_lc_16k_mono, carries_aac_hbr, set_channels, stream_channels}

abbrev pub ps_pack_start : Bytes
ps_pack_start = 0x00 ∷ 0x00 ∷ 0x01 ∷ 0xBA ∷ []

abbrev pub ts_sync_byte : ℕ
ts_sync_byte = 0x47

abbrev pub ts_packet_size : ℕ
ts_packet_size = 188

abbrev pub ts_sync_run : ℕ
ts_sync_run = 3

abbrev pub session_rtp_header_bytes : ℕ
session_rtp_header_bytes = 12

-- The names of the transports.
pub data Transport : Type 0 where
  mpeg_ps mpeg_ts rtp unknown : Transport

-- `_looks_like_mpeg_ts`, with the number of the checks that are left and the next index.
unfoldable pub sync_repeats : ℕ → ℕ → Bytes → ℕ → Bool
sync_repeats zero index bytes start = true
sync_repeats (suc rounds) index bytes start =
    let position = start + index * ts_packet_size in
    let rest = sync_repeats rounds (index + 1) bytes start in
    if leb (length bytes) position || not (byte_at bytes position == ts_sync_byte)
    then false
    else rest

unfoldable pub looks_like_mpeg_ts : Bytes → ℕ → Bool
unfolding sync_repeats
looks_like_mpeg_ts bytes start = sync_repeats (ts_sync_run - 1) 1 bytes start

-- The loop over the sync bytes, from one that was found on; each round goes on behind it.
unfoldable pub find_sync : ℕ → Bytes → Option ℕ → Option ℕ
find_sync fuel bytes none = none
find_sync zero bytes (some sync) = none
find_sync (suc fuel) bytes (some sync) =
    let further = find_sync fuel bytes (find_from (ts_sync_byte ∷ []) bytes (sync + 1)) in
    if looks_like_mpeg_ts bytes sync then some sync else further

-- `classify_payload`; an offset of `none` is its -1.
unfoldable pub classify_payload : Bytes → Transport × Option ℕ
classify_payload bytes = elim (find ps_pack_start bytes) [
  | some pack ↦ (mpeg_ps, some pack)
  | none ↦ elim (find_sync (suc (length bytes)) bytes (find (ts_sync_byte ∷ []) bytes)) [
    | some sync ↦ (mpeg_ts, some sync)
    | none ↦
        if ltb 0 (length bytes) && bit_and (byte_at bytes 0) 0xC0 == 0x80
        then (rtp, some 0)
        else (unknown, none)
  ]
]

-- `_payload_type_of`
unfoldable pub payload_type_of : Bytes → Option ℕ
payload_type_of body =
    if ltb (length body) session_rtp_header_bytes || not (bit_and (byte_at body 0) 0xC0 == 0x80)
    then none
    else some (bit_and (byte_at body 1) 0x7F)

-- `_audio_config`, by the channel count of the plan.
unfoldable pub audio_config : Option ℕ → ℕ
audio_config none = aac_lc_16k_mono
audio_config (some channels) = set_channels aac_lc_16k_mono channels

-- The loop over the units of one packet in `_audio_channels`.
abbrev pub first_channels : List Bytes → Option ℕ
first_channels [] = none
first_channels (unit ∷ units) =
    let rest = first_channels units in
    elim (stream_channels unit) [ some channels ↦ some channels | none ↦ rest ]

-- `units or ()`
abbrev pub units_or_empty : Option (List Bytes) → List Bytes
units_or_empty none = []
units_or_empty (some units) = units

-- Whether a payload is not empty.
abbrev pub some_bytes : Bytes → Bool
some_bytes [] = false
some_bytes (b ∷ rest) = true

-- `rtp_payload` is `pyezvizapi.stream.rtp_payload`; `none` is the `PyEzvizError` that it raises.
module _ (rtp_payload : Bytes → Option Bytes) where
  -- `_codec_of`
  unfoldable pub codec_of : Bytes → Option Codec
  codec_of body = elim (rtp_payload body) [ none ↦ none | some payload ↦ detect_codec payload ]

  -- `_audio_payload`
  unfoldable pub audio_payload : Bytes → Bool
  audio_payload body = elim (rtp_payload body) [
    | none ↦ false
    | some payload ↦ carries_aac_hbr payload
  ]

  -- `_prefix_audio`
  unfoldable pub prefix_audio : Option ℕ → List Bytes → Option ℕ
  prefix_audio pt [] = none
  prefix_audio pt (body ∷ packets) =
      let rest = prefix_audio pt packets in
      if not (same_option (payload_type_of body) pt) && audio_payload body
      then payload_type_of body
      else rest

  -- What `_audio_channels` reads from one packet.
  unfoldable pub packet_channels : Bytes → Option ℕ
  packet_channels body = elim (rtp_payload body) [
    | none ↦ none
    | some payload ↦ first_channels (units_or_empty (parse_au_section payload))
  ]

  -- The loop of `_audio_channels`, for a payload type.
  unfoldable pub channels_in : ℕ → List Bytes → Option ℕ
  channels_in pt [] = none
  channels_in pt (body ∷ packets) =
      let rest = channels_in pt packets in
      if not (same_option (payload_type_of body) (some pt))
      then rest
      else elim (packet_channels body) [ some channels ↦ some channels | none ↦ rest ]

  -- `_audio_channels`
  unfoldable pub audio_channels : Option ℕ → List Bytes → Option ℕ
  audio_channels none packets = none
  audio_channels (some pt) packets = channels_in pt packets

  -- `_carries_media`
  unfoldable pub carries_media : Bytes → Bool
  carries_media [] = false
  carries_media (b ∷ rest) =
      if leb session_rtp_header_bytes (length (b ∷ rest)) && bit_and b 0xC0 == 0x80
      then elim (rtp_payload (b ∷ rest)) [ none ↦ true | some payload ↦ some_bytes payload ]
      else true
