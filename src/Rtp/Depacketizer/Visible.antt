-- ===== src/Rtp/Depacketizer/Visible.antt =====
-- About the output and the counters of `feed`, on any input.
use ezviz_stream_bridge.Prelude.{
  ℕ, zero, suc, ◌+◌, ◌≤◌, ◌<◌, ◌≡◌, ◌⊎◌, refl, Option, some, [], ◌∷◌, ◌++◌, Bytes, arith, length,
  slice, from_bytes, length-append, length-drop, drop,
}
use ezviz_stream_bridge.Rtp.Constants.{Codec, h264, hevc, start_code}
use ezviz_stream_bridge.Rtp.Depacketizer.{
  RtpDepacketizer, append, h264_fragment, hevc_fragment, aggregate_loop, aggregate, feed_h264,
  feed_hevc, feed_codec, feed_media, feed, account, or_empty,
}
use ezviz_stream_bridge.Rtp.Detect.{payload_type}

-- What a packet did can be seen: it contributed bytes, a counter went up, or the NAL unit
-- that is being reassembled has grown.
abbrev pub IsVisible : RtpDepacketizer → RtpDepacketizer × Bytes → Type 0
IsVisible d r =
    (0 < length r.1)
    ⊎ (d.dropped < r.0.dropped)
    ⊎ (d.skipped < r.0.skipped)
    ⊎ (length (or_empty d.fragment) < length (or_empty r.0.fragment))

h264_fragment-IsVisible :
    (d : RtpDepacketizer) (payload : Bytes)
    → 4 ≤ length payload
    → IsVisible d (h264_fragment d payload)
unfolding h264_fragment append
h264_fragment-IsVisible d payload long =
    ground (arith, length-append (or_empty d.fragment) (drop 2 payload), length-drop 2 payload)

hevc_fragment-IsVisible :
    (d : RtpDepacketizer) (payload : Bytes)
    → 4 ≤ length payload
    → IsVisible d (hevc_fragment d payload)
unfolding hevc_fragment append
hevc_fragment-IsVisible d payload long =
    ground (arith, length-append (or_empty d.fragment) (drop 3 payload), length-drop 3 payload)

aggregate_loop_grows :
    (fuel : ℕ) (d : RtpDepacketizer) (payload : Bytes) (offset : ℕ) (out : Bytes)
    → length out ≤ length (aggregate_loop fuel d payload offset out).1
unfolding aggregate_loop
aggregate_loop_grows zero d payload offset out = omega arith
aggregate_loop_grows (suc fuel) d payload offset out =
    let size = from_bytes (slice payload offset (offset + 2)) in
    let unit = slice payload (offset + 2) (offset + 2 + size) in
    ground (
      arith,
      length-append out (start_code ++ unit),
      aggregate_loop_grows fuel d payload (offset + (2 + size)) (out ++ (start_code ++ unit)),
    )

aggregate-IsVisible :
    (d : RtpDepacketizer) (payload : Bytes) (offset : ℕ)
    → offset + 2 ≤ length payload
    → IsVisible d (aggregate d payload offset)
unfolding aggregate aggregate_loop
aggregate-IsVisible d [] offset room = absurd (omega arith)
aggregate-IsVisible d (b ∷ rest) offset room =
    let payload = b ∷ rest in
    let size = from_bytes (slice payload offset (offset + 2)) in
    let unit = slice payload (offset + 2) (offset + 2 + size) in
    ground (
      arith,
      aggregate_loop_grows (length rest) d payload (offset + (2 + size)) (start_code ++ unit),
    )

-- An aggregate too short for one length field is neither emitted nor counted.
pub aggregate_silent :
    (d : RtpDepacketizer) (payload : Bytes) (offset : ℕ)
    → length payload < offset + 2
    → aggregate d payload offset ≡ (d, [])
unfolding aggregate aggregate_loop
aggregate_silent d [] offset short = refl
aggregate_silent d (b ∷ rest) offset short = ground arith

feed_codec-IsVisible :
    (codec : Codec) (d : RtpDepacketizer) (payload : Bytes)
    → 4 ≤ length payload
    → IsVisible d (feed_codec codec d payload)
unfolding feed_h264 feed_hevc
feed_codec-IsVisible h264 d payload h =
    ground
      (arith, h264_fragment-IsVisible d payload h, aggregate-IsVisible d payload 1 (omega arith))
feed_codec-IsVisible hevc d payload h =
    ground
      (arith, hevc_fragment-IsVisible d payload h, aggregate-IsVisible d payload 2 (omega arith))

module _ (rtp_payload : Bytes → Option Bytes) where
  -- A packet with at least four bytes of media is never lost in silence: it contributes bytes to
  -- the stream, raises `dropped` or `skipped`, or makes the NAL unit
  -- that is being reassembled longer.
  pub feed-IsVisible :
      (d : RtpDepacketizer) (packet payload : Bytes)
      → rtp_payload packet ≡ some payload
      → 4 ≤ length payload
      → IsVisible d (feed rtp_payload d packet)
  unfolding feed feed_media
  feed-IsVisible d packet [] e long = absurd (omega arith)
  feed-IsVisible d packet (b ∷ rest) e long =
      let d' = account d (payload_type packet) packet (b ∷ rest) in
      ground (arith, feed_codec-IsVisible d.codec d' (b ∷ rest) long)
