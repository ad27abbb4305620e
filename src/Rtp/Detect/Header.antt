-- ===== src/Rtp/Detect/Header.antt =====
-- About `_detect_parameter_set` on the two header bytes of a NAL unit.
use ezviz_stream_bridge.Prelude.{
  ℕ, ◌/◌, ◌%◌, ◌≤◌, ◌<◌, ◌≡◌, ◌≢◌, ◌↔◌, refl, Bool, true, false, Option, none, some, ◌∷◌, Bytes,
  arith, bit_and, ◌==◌, ◌&&◌, ◌||◌, ltb, length, sym, ◌∙◌, Bool-cases, Option-cases, ◌⊎◌, inl, inr,
  if◌then◌else◌,
}
use ezviz_stream_bridge.Prelude.Bits.{
  bit_and-0x80, bit_and-0x1f, bit_and-0x3f, bit_and-0x01, bit_and-0x07,
}
use ezviz_stream_bridge.Rtp.Constants.{Codec, h264, hevc, h264_profiles}
use ezviz_stream_bridge.Rtp.Detect.{contains, has_bits, hevc_parameter_types, detect_parameter_set}

-- The two tests of the source, by name.
abbrev is_hevc_set : ℕ → ℕ → Bool
is_hevc_set first second =
    contains hevc_parameter_types (bit_and (first / 2) 0x3F)
    && bit_and first 0x01 == 0
    && has_bits second 0x07

abbrev ladder : Bool → Bool → Bool → Option Codec
ladder unfit first_test second_test =
    if unfit
    then none
    else if first_test
    then some hevc
    else if second_test
    then some h264
    else none

ladder-hevc : (a b c : Bool) → (ladder a b c ≡ some hevc) ↔ (a ≡ false) × (b ≡ true)
ladder-hevc a b c = ground arith

ladder-h264 : (a b c : Bool) → (ladder a b c ≡ some h264) ↔ (a ≡ false) × (b ≡ false) × (c ≡ true)
ladder-h264 a b c = ground arith

module _ (first second : ℕ) (is_byte : first < 256) (is_byte' : second < 256) where
  is_hevc_set_iff :
      (is_hevc_set first second ≡ true)
      ↔ (64 ≤ first % 128) × (first % 128 ≤ 69) × (first % 2 ≡ 0) × (1 ≤ second % 8)
  unfolding contains
  is_hevc_set_iff =
      ground (arith, bit_and-0x3f (first / 2), bit_and-0x01 first, bit_and-0x07 second)

module _ (first second : ℕ) (body : Bytes) (is_byte : first < 256) (is_byte' : second < 256) where
  unfit : Bool
  unfit = ltb (length (first ∷ second ∷ body)) 2 || has_bits first 0x80

  unfit_iff : (unfit ≡ false) ↔ (first < 128)
  unfolding unfit
  unfit_iff = ground (arith, bit_and-0x80 first)

  detect-ladder :
      detect_parameter_set (first ∷ second ∷ body)
      ≡ ladder unfit
          (is_hevc_set first second)
          (bit_and first 0x1F == 7 && contains h264_profiles second)
  unfolding detect_parameter_set unfit
  detect-ladder = refl

  is_sps_iff :
      ((bit_and first 0x1F == 7 && contains h264_profiles second) ≡ true)
      ↔ (first % 32 ≡ 7) × (contains h264_profiles second ≡ true)
  is_sps_iff = ground (arith, bit_and-0x1f first)

  odd_not_hevc : first % 2 ≡ 1 → is_hevc_set first second ≡ false
  odd_not_hevc odd = elim (Bool-cases (is_hevc_set first second)) [
    | inl yes' ↦ absurd (omega (arith, (is_hevc_set_iff first second is_byte is_byte').0 yes', odd))
    | inr no' ↦ no'
  ]

  -- The unit names HEVC exactly when it is a VPS, an SPS or a PPS of a single-layer stream with
  -- a temporal id.
  pub detect_parameter_set-hevc :
      (detect_parameter_set (first ∷ second ∷ body) ≡ some hevc)
      ↔ (64 ≤ first) × (first ≤ 69) × (first % 2 ≡ 0) × (1 ≤ second % 8)
  detect_parameter_set-hevc = (
    λ e.
        let (low, set) = (ladder-hevc _ _ _).0 (sym detect-ladder ∙ e) in
        let (a, b, c, d) = (is_hevc_set_iff first second is_byte is_byte').0 set in
        let lt : first < 128 = unfit_iff.0 low in (omega arith, omega arith, c, d),
    λ h.
        detect-ladder
        ∙ (ladder-hevc _ _ _).1 (
          unfit_iff.1 (omega (arith, h.1)),
          (is_hevc_set_iff first second is_byte is_byte').1
              (omega (arith, h.0, h.1), omega (arith, h.0, h.1), h.2, h.3),
        ),
  )

  -- The unit names H.264 exactly when it is an SPS whose second byte is a profile that the
  -- specification has assigned.
  pub detect_parameter_set-h264 :
      (detect_parameter_set (first ∷ second ∷ body) ≡ some h264)
      ↔ (first < 128) × (first % 32 ≡ 7) × (contains h264_profiles second ≡ true)
  detect_parameter_set-h264 = (
    λ e.
        let (low, _, sps) = (ladder-h264 _ _ _).0 (sym detect-ladder ∙ e) in
        let (type, profile) = is_sps_iff.0 sps in (unfit_iff.0 low, type, profile),
    λ h.
        detect-ladder
        ∙ (ladder-h264 _ _ _).1
            (unfit_iff.1 h.0, odd_not_hevc (omega (arith, h.1)), is_sps_iff.1 (h.1, h.2)),
  )

-- On bytes, a unit is read as HEVC exactly when it is a VPS, an SPS or a PPS of a single-layer
-- stream with a temporal id, and as H.264 exactly when it is an SPS whose second byte is a profile
-- that the specification has assigned. The first is even and the second odd, so no unit is both.
detect_parameter_set_lem :
    (first second : ℕ) (body : Bytes)
    → first < 256
    → second < 256
    → ((detect_parameter_set (first ∷ second ∷ body) ≡ some hevc)
        ↔ (64 ≤ first) × (first ≤ 69) × (first % 2 ≡ 0) × (1 ≤ second % 8))
      × ((detect_parameter_set (first ∷ second ∷ body) ≡ some h264)
          ↔ (first < 128) × (first % 32 ≡ 7) × (contains h264_profiles second ≡ true))
detect_parameter_set_lem first second body b b' = (
  detect_parameter_set-hevc first second body b b',
  detect_parameter_set-h264 first second body b b',
)

-- A first byte that fits neither reading names no codec.
pub detect_parameter_set-none :
    (first second : ℕ) (body : Bytes)
    → first < 256
    → second < 256
    → first % 32 ≢ 7
    → (first < 64) ⊎ (69 < first)
    → detect_parameter_set (first ∷ second ∷ body) ≡ none
detect_parameter_set-none first second body b b' not_sps outside = ground (
  arith,
  (detect_parameter_set-hevc first second body b b').0,
  (detect_parameter_set-h264 first second body b b').0,
  Option-cases (detect_parameter_set (first ∷ second ∷ body)),
)
