-- ===== src/Aac/Adts.antt =====
-- ezviz_stream_bridge/rtp.py, lines 108 to 150 and 591 to 655: an AudioSpecificConfig, its fields,
-- and the ADTS frame that is built from it.
pub mod Fields
pub mod Channels
use ezviz_stream_bridge.Prelude.{
  ℕ, ◌+◌, ◌-◌, ◌*◌, ◌/◌, ◌^◌, Bool, false, Option, none, some, List, [], ◌∷◌, ◌++◌, Bytes, every,
  length, byte_at, leb, ◌==◌, bit_and, bit_or, if◌then◌else◌,
}
use ezviz_stream_bridge.Aac.Section.{parse_au_section}

abbrev pub aac_lc_16k_mono : ℕ
aac_lc_16k_mono = 0x1408

abbrev pub aac_channels_mask : ℕ
aac_channels_mask = 0x07 * 2 ^ 3

abbrev pub adts_header_bytes : ℕ
adts_header_bytes = 7

abbrev pub adts_max_au_bytes : ℕ
adts_max_au_bytes = 2 ^ 13 - 1 - adts_header_bytes

abbrev pub adts_max_object_type : ℕ
adts_max_object_type = 4

-- `(config >> _AAC_OBJECT_TYPE_SHIFT) & 0x1F`
abbrev pub object_type_of : ℕ → ℕ
object_type_of config = bit_and (config / 2 ^ 11) 0x1F

-- `(config >> _AAC_FREQUENCY_SHIFT) & 0x0F`
abbrev pub frequency_of : ℕ → ℕ
frequency_of config = bit_and (config / 2 ^ 7) 0x0F

-- `(config >> _AAC_CHANNELS_SHIFT) & 0x07`
abbrev pub channels_of : ℕ → ℕ
channels_of config = bit_and (config / 2 ^ 3) 0x07

-- `profile & 0x03`, where `profile` is the object type less one. At object type 0 the source's
-- `profile` is -1, whose two low bits are 3; adding 3 and masking agrees with it everywhere.
abbrev pub profile_bits : ℕ → ℕ
profile_bits config = bit_and (object_type_of config + 3) 0x03

unfoldable pub adts_header : ℕ → ℕ → Bytes
adts_header config length =
    let frequency = frequency_of config in
    let channels = channels_of config in
    0xFF
    ∷ 0xF1
    ∷ bit_or (bit_or (profile_bits config * 2 ^ 6) (frequency * 2 ^ 2))
        (bit_and (channels / 2 ^ 2) 0x01)
    ∷ bit_or (bit_and channels 0x03 * 2 ^ 6) (bit_and (length / 2 ^ 11) 0x03)
    ∷ bit_and (length / 2 ^ 3) 0xFF
    ∷ bit_or (bit_and length 0x07 * 2 ^ 5) 0x1F
    ∷ 0xFC
    ∷ []

unfoldable pub adts_frame : Bytes → ℕ → Bytes
unfolding adts_header
adts_frame unit config = adts_header config (length unit + adts_header_bytes) ++ unit

-- `carries_aac_hbr`
unfoldable pub carries_aac_hbr : Bytes → Bool
carries_aac_hbr payload = elim (parse_au_section payload) [
  | none ↦ false
  | some units ↦ every (λ unit. leb (length unit) adts_max_au_bytes) units
]

-- `stream_channels`: the channels that the element id in the top three bits names.
unfoldable pub stream_channels : Bytes → Option ℕ
stream_channels [] = none
stream_channels (b ∷ rest) =
    let element = b / 2 ^ 5 in
    if element == 0 then some 1 else if element == 1 then some 2 else none

-- `set_channels`; `config & ~mask` is `config` less the masked bits.
unfoldable pub set_channels : ℕ → ℕ → ℕ
set_channels config channels =
    bit_or (config - bit_and config aac_channels_mask)
      (bit_and (channels * 2 ^ 3) aac_channels_mask)
