-- ===== src/Tests/Rtp.antt =====
-- ezviz_stream_bridge/rtp.py at concrete packets: the video half.
use mathlib.Core.List.{Perm}
use ezviz_stream_bridge.Prelude.{
  ◌++◌, ℕ, ◌⊎◌, inr, ◌≡◌, refl, inl, true, Option, none, some, List, [], ◌∷◌, Bytes, All, arith,
  length, drop, ltb, find, starts_with, if◌then◌else◌,
}
use ezviz_stream_bridge.Rtp.Constants.{h264}
use ezviz_stream_bridge.Rtp.Packing.{join_units, annex_b}
use ezviz_stream_bridge.Rtp.ParameterSets.{parameter_sets}
use ezviz_stream_bridge.Rtp.ParameterSets.Wire.{IsClean, sets_among, parameter_sets-Wire}
use ezviz_stream_bridge.Rtp.Detect.{payload_type, detect_codec}
use ezviz_stream_bridge.Rtp.Detect.Bundled.{named, stap_a, detect_codec-join_units}
use ezviz_stream_bridge.Rtp.Depacketizer.{new_depacketizer, feed, feed_all, payload_types}
use ezviz_stream_bridge.Rtp.Depacketizer.Wire.{Single, Start, More, Carries, Wire}
use ezviz_stream_bridge.Rtp.Depacketizer.Refine.{Delivered, feed_all-Delivered}
use ezviz_stream_bridge.Rtp.Depacketizer.Bounds.{FragmentFits, feed_all-FragmentFits}
use ezviz_stream_bridge.Rtp.Depacketizer.Visible.{IsVisible, feed-IsVisible}
use ezviz_stream_bridge.Rtp.Depacketizer.Account.{IsStat, counted, accepted}
use ezviz_stream_bridge.Rtp.Depacketizer.Report.{IsDescending, payload_types_report}

-- An unwrap of packets with a header of twelve bytes and nothing else.
unfoldable pub unwrap : Bytes → Option Bytes
unwrap packet = if ltb (length packet) 12 then none else some (drop 12 packet)

abbrev pub packet : Bytes → Bytes
packet payload = 128 ∷ 96 ∷ 0 ∷ 1 ∷ 0 ∷ 0 ∷ 0 ∷ 0 ∷ 0 ∷ 0 ∷ 0 ∷ 1 ∷ payload

pub payload_type-packet : (payload : Bytes) → payload_type (packet payload) ≡ some 96
unfolding payload_type
payload_type-packet payload = ground arith

-- A picture in two fragments, as H.264 sends it.
abbrev pub first_fragment : Bytes
first_fragment = 124 ∷ 133 ∷ 10 ∷ 20 ∷ []

abbrev pub last_fragment : Bytes
last_fragment = 124 ∷ 69 ∷ 30 ∷ []

abbrev pub picture : Bytes
picture = 101 ∷ 10 ∷ 20 ∷ 30 ∷ []

abbrev pub sps : Bytes
sps = 103 ∷ 77 ∷ 0 ∷ 41 ∷ []

abbrev pps : Bytes
pps = 104 ∷ 238 ∷ []

pub IsClean-session : All IsClean (sps ∷ picture ∷ [])
unfolding find starts_with
IsClean-session = (refl, (refl, tt))

abbrev pub session : List Bytes
session = packet sps ∷ packet [] ∷ packet first_fragment ∷ packet last_fragment ∷ []

carries :
    (expected : Option ℕ) (payload : Bytes)
    → (expected ≡ none) ⊎ (payload_type (packet payload) ≡ expected)
    → Carries unwrap h264 expected (packet payload) payload
unfolding unwrap
carries expected payload ours = record { unwraps = ground arith; is_ours = ours }

pub Wire-session :
    (expected : Option ℕ)
    → ((payload : Bytes) → (expected ≡ none) ⊎ (payload_type (packet payload) ≡ expected))
    → Wire unwrap h264 expected none session (sps ∷ picture ∷ [])
Wire-session expected ours =
    Wire.single (packet sps) sps
      (Single.h264_single 103 (77 ∷ 0 ∷ 41 ∷ []) (omega arith) (omega arith) (omega arith))
      (carries expected sps (ours sps))
      (Wire.no_media (packet []) (unfold unwrap in refl) (
        Wire.starts (packet first_fragment) first_fragment (101 ∷ 10 ∷ 20 ∷ [])
          (Start.fu_a 101 (10 ∷ 20 ∷ []) (omega arith)) (omega arith)
          (carries expected first_fragment (ours first_fragment))
          (Wire.finishes (packet last_fragment) last_fragment (101 ∷ 10 ∷ 20 ∷ []) (30 ∷ [])
            (More.fu_a 101 true (30 ∷ []) (omega arith)) (omega arith)
            (carries expected last_fragment (ours last_fragment)) Wire.ends)))

feed_all-Delivered_example :
    Delivered unwrap h264 none
      (new_depacketizer h264 none)
      (sps ∷ picture ∷ [])
      []
      (feed_all unwrap (new_depacketizer h264 none) session [])
feed_all-Delivered_example =
    feed_all-Delivered unwrap h264 none (Wire-session none (λ payload. inl refl))

feed-IsVisible_example :
    IsVisible
      (new_depacketizer h264 none)
      (feed unwrap (new_depacketizer h264 none) (packet first_fragment))
feed-IsVisible_example =
    feed-IsVisible unwrap (new_depacketizer h264 none) (packet first_fragment) first_fragment
      (carries none first_fragment (inl refl)).unwraps (omega arith)

feed_all-FragmentFits_example :
    FragmentFits (feed_all unwrap (new_depacketizer h264 none) session []).0.fragment
feed_all-FragmentFits_example =
    feed_all-FragmentFits unwrap session (new_depacketizer h264 none) [] tt

payload_types_report_example :
    (let d = (feed_all unwrap (new_depacketizer h264 none) session []).0 in
      Perm (payload_types d) d.types
      × IsDescending (payload_types d)
      × (counted (payload_types d) ≡ accepted unwrap session)
      × All IsStat (payload_types d))
payload_types_report_example = payload_types_report unwrap h264 none session

detect_codec-join_units_example :
    detect_codec ((120 ∷ []) ++ join_units (pps ∷ sps ∷ [])) ≡ named h264 (pps ∷ sps ∷ [])
detect_codec-join_units_example =
    detect_codec-join_units h264 (120 ∷ []) (pps ∷ sps ∷ [])
      (stap_a 120 (omega arith) (omega arith))
      ((omega arith, omega arith), ((omega arith, omega arith), tt))

parameter_sets-Wire_example :
    parameter_sets unwrap session h264 96 ≡ annex_b (sets_among h264 (sps ∷ picture ∷ []))
parameter_sets-Wire_example =
    parameter_sets-Wire unwrap h264 96 session (sps ∷ picture ∷ [])
      (Wire-session (some 96) (λ payload. inr (payload_type-packet payload))) IsClean-session
