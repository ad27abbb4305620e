-- ===== src/Aac/Adts/Fields.antt =====
-- An ADTS header as a demuxer reads it (ISO/IEC 13818-7), beside `adts_frame`.
use ezviz_stream_bridge.Prelude.{
  ℕ, zero, suc, ◌+◌, ◌*◌, ◌/◌, ◌%◌, ◌≤◌, ◌<◌, ◌≡◌, refl, sym, ap, ◌∙◌, List, [], ◌∷◌, ◌++◌, Bytes,
  All, arith, length, take, drop, byte_at, take-length, drop-length, leb, if◌then◌else◌,
  length-append, true, le→leb,
}
use mathlib.Core.Path.{ap₂}
use ezviz_stream_bridge.Prelude.Bits.{bit_or_adts_second, bit_or_adts_third, bit_or_adts_fifth}
use ezviz_stream_bridge.Prelude.Bits.Words.{
  bit_and-1, bit_and-3, bit_and-7, bit_and-15, bit_and-31, bit_and-255,
}
use ezviz_stream_bridge.Aac.Adts.{
  object_type_of, frequency_of, channels_of, adts_header, adts_frame,
}

abbrev pub read_profile : Bytes → ℕ
read_profile frame = byte_at frame 2 / 64

abbrev pub read_frequency : Bytes → ℕ
read_frequency frame = byte_at frame 2 / 4 % 16

abbrev pub read_channels : Bytes → ℕ
read_channels frame = byte_at frame 2 % 2 * 4 + byte_at frame 3 / 64

abbrev pub read_length : Bytes → ℕ
read_length frame = byte_at frame 3 % 4 * 2048 + byte_at frame 4 * 8 + byte_at frame 5 / 32

module _ (config length : ℕ) where
  abbrev frequency : ℕ
  frequency = config / 128 % 16

  abbrev channels : ℕ
  channels = config / 8 % 8

  abbrev profile : ℕ
  profile = (config / 2048 % 32 + 3) % 4

  second_byte : byte_at (adts_header config length) 2 ≡ profile * 64 + frequency * 4 + channels / 4
  unfolding adts_header
  second_byte =
      let n = profile * 64 + frequency * 4 + channels / 4 in
      ground (
        arith,
        bit_and-31 (config / 2048),
        bit_and-3 (config / 2048 % 32 + 3),
        bit_and-15 (config / 128),
        bit_and-7 (config / 8),
        bit_and-1 (channels / 4),
        bit_or_adts_second n,
      )

  third_byte : byte_at (adts_header config length) 3 ≡ channels % 4 * 64 + length / 2048 % 4
  unfolding adts_header
  third_byte =
      let n = channels % 4 * 64 + length / 2048 % 4 in
      ground (
        arith,
        bit_and-7 (config / 8),
        bit_and-3 channels,
        bit_and-3 (length / 2048),
        bit_or_adts_third n,
      )

  fourth_byte : byte_at (adts_header config length) 4 ≡ length / 8 % 256
  unfolding adts_header
  fourth_byte = bit_and-255 (length / 8)

  fifth_byte : byte_at (adts_header config length) 5 ≡ length % 8 * 32 + 31
  unfolding adts_header
  fifth_byte = ground (arith, bit_and-7 length, bit_or_adts_fifth (length % 8 * 32))

module _ (config : ℕ) (unit : Bytes) where
  -- The first seven bytes of the frame are the header, and what follows it is the unit.
  byte_of_frame :
      (i : ℕ)
      → i < 7
      → byte_at (adts_frame unit config) i ≡ byte_at (adts_header config (length unit + 7)) i
  unfolding adts_frame
  byte_of_frame zero h = refl
  byte_of_frame (suc zero) h = refl
  byte_of_frame (suc (suc zero)) h = refl
  byte_of_frame (suc (suc (suc zero))) h = refl
  byte_of_frame (suc (suc (suc (suc zero)))) h = refl
  byte_of_frame (suc (suc (suc (suc (suc zero))))) h = refl
  byte_of_frame (suc (suc (suc (suc (suc (suc zero)))))) h = refl
  byte_of_frame (suc (suc (suc (suc (suc (suc (suc i))))))) h = absurd (omega arith)

  pub length-adts_frame : length (adts_frame unit config) ≡ length unit + 7
  unfolding adts_frame
  length-adts_frame = omega arith

  read_length_frame : length unit ≤ 8184 → read_length (adts_frame unit config) ≡ length unit + 7
  read_length_frame fits = omega (
    arith,
    byte_of_frame 3 (omega arith),
    byte_of_frame 4 (omega arith),
    byte_of_frame 5 (omega arith),
    third_byte config (length unit + 7),
    fourth_byte config (length unit + 7),
    fifth_byte config (length unit + 7),
  )

-- A demuxer reads back from the header what the configuration says, for the object types that
-- ADTS can name, and the size of the frame, for a unit that its length field can describe; the
-- bytes after the header are the unit.
pub adts_frame_fields :
    (unit : Bytes) (config : ℕ)
    → 1 ≤ object_type_of config
    → object_type_of config ≤ 4
    → length unit ≤ 8184
    → (read_profile (adts_frame unit config) + 1 ≡ object_type_of config)
      × (read_frequency (adts_frame unit config) ≡ frequency_of config)
      × (read_channels (adts_frame unit config) ≡ channels_of config)
      × (read_length (adts_frame unit config) ≡ length (adts_frame unit config))
      × (drop 7 (adts_frame unit config) ≡ unit)
adts_frame_fields unit config low high fits =
    let second = byte_of_frame config unit 2 (omega arith) ∙ second_byte config (length unit + 7) in
    let third = byte_of_frame config unit 3 (omega arith) ∙ third_byte config (length unit + 7) in
    let type = bit_and-31 (config / 2048) in
    let frequency = bit_and-15 (config / 128) in
    let channels = bit_and-7 (config / 8) in
    (
      omega (arith, second, type, low, high),
      omega (arith, second, frequency),
      omega (arith, second, third, channels),
      omega (arith, read_length_frame config unit fits, length-adts_frame config unit),
      unfold adts_frame adts_header in refl,
    )

-- A demuxer at work: take a frame by its length field, and go on behind it.
unfoldable pub read_frames : ℕ → Bytes → List Bytes
read_frames zero stream = []
read_frames (suc fuel) stream =
    let rest = read_frames fuel (drop (read_length stream) stream) in
    if leb 7 (length stream) then drop 7 (take (read_length stream) stream) ∷ rest else []

abbrev pub adts_frames : ℕ → List Bytes → Bytes
adts_frames config [] = []
adts_frames config (unit ∷ units) = adts_frame unit config ++ adts_frames config units

read_length-append :
    (config : ℕ) (unit rest : Bytes)
    → read_length (adts_frame unit config ++ rest) ≡ read_length (adts_frame unit config)
unfolding adts_frame adts_header
read_length-append config unit rest = refl

-- A stream of frames is split back into its Access Units.
pub read_frames-adts_frames :
    (config : ℕ) (units : List Bytes) (fuel : ℕ)
    → All (λ unit. length unit ≤ 8184) units
    → length units < fuel
    → read_frames fuel (adts_frames config units) ≡ units
unfolding read_frames
read_frames-adts_frames config units zero fits enough = absurd (omega arith)
read_frames-adts_frames config [] (suc fuel) fits enough = refl
read_frames-adts_frames config (unit ∷ units) (suc fuel) (fit, fits) enough =
    let frame = adts_frame unit config in
    let rest = adts_frames config units in
    let size : read_length (frame ++ rest) ≡ length frame =
      read_length-append config unit rest
      ∙ read_length_frame config unit fit
      ∙ sym (length-adts_frame config unit) in
    let long : leb 7 (length (frame ++ rest)) ≡ true =
      le→leb 7 _ (omega (arith, length-append frame rest, length-adts_frame config unit)) in
    let cut : drop 7 (take (read_length (frame ++ rest)) (frame ++ rest)) ≡ unit =
      ap (λ n. drop 7 (take n (frame ++ rest))) size
      ∙ ap (drop 7) (take-length frame rest)
      ∙ unfold adts_frame adts_header in refl in
    let after : drop (read_length (frame ++ rest)) (frame ++ rest) ≡ rest =
      ap (λ n. drop n (frame ++ rest)) size ∙ drop-length frame rest in
    rw long (
      ap₂ (λ u us. u ∷ us) cut
        (ap (read_frames fuel) after
          ∙ read_frames-adts_frames config units fuel fits (omega arith)))
