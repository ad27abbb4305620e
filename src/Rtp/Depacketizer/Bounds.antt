-- ===== src/Rtp/Depacketizer/Bounds.antt =====
-- About the open fragment of `RtpDepacketizer`, on any input.
use ezviz_stream_bridge.Prelude.{
  ℕ, zero, suc, ◌+◌, ◌≤◌, ◌≡◌, refl, Option, none, some, List, [], ◌∷◌, ◌++◌, Bytes, arith, length,
  slice, from_bytes,
}
use ezviz_stream_bridge.Rtp.Constants.{Codec, h264, hevc, start_code, max_nal_bytes}
use ezviz_stream_bridge.Rtp.Depacketizer.{
  RtpDepacketizer, append, h264_fragment, hevc_fragment, aggregate_loop, aggregate, feed_h264,
  feed_hevc, feed_codec, feed, feed_all,
}
use ezviz_stream_bridge.Rtp.Depacketizer.Cases.{feed_cases}

-- An open fragment is within the bound.
abbrev pub FragmentFits : Option Bytes → Type 0
FragmentFits none = Unit {0}
FragmentFits (some fragment) = length fragment ≤ max_nal_bytes

append-FragmentFits :
    (d : RtpDepacketizer) (chunk : Bytes) → FragmentFits (append d chunk).0.fragment
unfolding append
append-FragmentFits d chunk = ground arith

h264_fragment-FragmentFits :
    (d : RtpDepacketizer) (payload : Bytes)
    → FragmentFits d.fragment
    → FragmentFits (h264_fragment d payload).0.fragment
unfolding h264_fragment
h264_fragment-FragmentFits d payload h = ground arith

hevc_fragment-FragmentFits :
    (d : RtpDepacketizer) (payload : Bytes)
    → FragmentFits d.fragment
    → FragmentFits (hevc_fragment d payload).0.fragment
unfolding hevc_fragment
hevc_fragment-FragmentFits d payload h = ground arith

aggregate_loop_fragment :
    (fuel : ℕ) (d : RtpDepacketizer) (payload : Bytes) (offset : ℕ) (out : Bytes)
    → (aggregate_loop fuel d payload offset out).0.fragment ≡ d.fragment
unfolding aggregate_loop
aggregate_loop_fragment zero d payload offset out = refl
aggregate_loop_fragment (suc fuel) d payload offset out =
    let size = from_bytes (slice payload offset (offset + 2)) in
    let unit = slice payload (offset + 2) (offset + 2 + size) in
    ground (
      arith,
      aggregate_loop_fragment fuel d payload (offset + (2 + size)) (out ++ (start_code ++ unit)),
    )

aggregate_fragment :
    (d : RtpDepacketizer) (payload : Bytes) (offset : ℕ)
    → (aggregate d payload offset).0.fragment ≡ d.fragment
unfolding aggregate
aggregate_fragment d payload offset = aggregate_loop_fragment (length payload) d payload offset []

feed_codec-FragmentFits :
    (codec : Codec) (d : RtpDepacketizer) (payload : Bytes)
    → FragmentFits d.fragment
    → FragmentFits (feed_codec codec d payload).0.fragment
unfolding feed_h264 feed_hevc
feed_codec-FragmentFits h264 d payload h =
    ground (arith, h264_fragment-FragmentFits d payload h, aggregate_fragment d payload 1)
feed_codec-FragmentFits hevc d payload h =
    ground (arith, hevc_fragment-FragmentFits d payload h, aggregate_fragment d payload 2)

module _ (rtp_payload : Bytes → Option Bytes) where
  feed-FragmentFits :
      (d : RtpDepacketizer) (packet : Bytes)
      → FragmentFits d.fragment
      → FragmentFits (feed rtp_payload d packet).0.fragment
  feed-FragmentFits d packet h =
      feed_cases (λ r. FragmentFits r.0.fragment) rtp_payload d packet h h
        λ payload. (h, feed_codec-FragmentFits d.codec _ payload h)

  -- Whatever packets arrive, a NAL unit being reassembled never grows past the bound.
  pub feed_all-FragmentFits :
      (packets : List Bytes) (d : RtpDepacketizer) (out : Bytes)
      → FragmentFits d.fragment
      → FragmentFits (feed_all rtp_payload d packets out).0.fragment
  unfolding feed_all
  feed_all-FragmentFits [] d out h = h
  feed_all-FragmentFits (packet ∷ packets) d out h =
      feed_all-FragmentFits packets _ _ (feed-FragmentFits d packet h)
