-- ===== src/Aac/Adts/Channels.antt =====
-- The fields of an AudioSpecificConfig after `set_channels`.
use ezviz_stream_bridge.Prelude.{ℕ, ◌+◌, ◌-◌, ◌*◌, ◌/◌, ◌%◌, ◌≡◌, arith}
use ezviz_stream_bridge.Prelude.Bits.Words.{
  bit_and-7, bit_and-15, bit_and-31, bit_and-56, bit_or-56,
}
use ezviz_stream_bridge.Aac.Adts.{object_type_of, frequency_of, channels_of, set_channels}

set_channels_sum :
    (config channels : ℕ)
    → set_channels config channels ≡ config - config / 8 % 8 * 8 + channels % 8 * 8
unfolding set_channels
set_channels_sum config channels = ground (
  arith,
  bit_and-56 config,
  bit_and-56 (channels * 8),
  bit_or-56 (config - config / 8 % 8 * 8) (channels % 8),
)

-- The new configuration has the three low bits of the channel count, and the object type, the
-- sampling frequency and the three bits below the channels that it had before.
pub set_channels_fields :
    (config channels : ℕ)
    → (channels_of (set_channels config channels) ≡ channels % 8)
      × (object_type_of (set_channels config channels) ≡ object_type_of config)
      × (frequency_of (set_channels config channels) ≡ frequency_of config)
      × (set_channels config channels % 8 ≡ config % 8)
set_channels_fields config channels =
    let new = set_channels config channels in
    omega (
      arith,
      set_channels_sum config channels,
      bit_and-7 (new / 8),
      bit_and-31 (new / 2048),
      bit_and-31 (config / 2048),
      bit_and-15 (new / 128),
      bit_and-15 (config / 128),
    )
