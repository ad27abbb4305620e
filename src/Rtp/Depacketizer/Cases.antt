-- ===== src/Rtp/Depacketizer/Cases.antt =====
-- The branches of `feed`.
use ezviz_stream_bridge.Prelude.{
  ◌+◌, Bool, true, false, not, ◌&&◌, is_some, same_option, Option, none, some, [], ◌∷◌, Bytes,
  if◌then◌else◌,
}
use ezviz_stream_bridge.Rtp.Detect.{payload_type}
use ezviz_stream_bridge.Rtp.Depacketizer.{
  RtpDepacketizer, drop_packet, account, feed_codec, feed_media, feed,
}

module _ {ℓ} (P : RtpDepacketizer × Bytes → Type ℓ) where
  media_cases :
      (d d' : RtpDepacketizer) (r : RtpDepacketizer × Bytes) (other : Bool)
      → P (d', [])
      → P r
      → P (if other then (d', []) else r)
  media_cases d d' r true skipped fed = skipped
  media_cases d d' r false skipped fed = fed

  module _ (rtp_payload : Bytes → Option Bytes) (d : RtpDepacketizer) (packet : Bytes) where
    after_unwrap : Option Bytes → RtpDepacketizer × Bytes
    after_unwrap none = (drop_packet d, [])
    after_unwrap (some []) = (account d (payload_type packet) packet [], [])
    after_unwrap (some (b ∷ rest)) =
        feed_media (account d (payload_type packet) packet (b ∷ rest)) packet (b ∷ rest)

    unwrap_cases :
        P (drop_packet d, [])
        → P (account d (payload_type packet) packet [], [])
        → ((payload : Bytes)
            → (let d' = account d (payload_type packet) packet payload in
                P (record d' { skipped = d'.skipped + 1 }, [])
                × P (feed_codec d'.codec d' payload)))
        → (o : Option Bytes) → P (after_unwrap o)
    unfolding after_unwrap feed_media
    unwrap_cases rejected no_media media none = rejected
    unwrap_cases rejected no_media media (some []) = no_media
    unwrap_cases rejected no_media media (some (b ∷ rest)) =
        media_cases (account d (payload_type packet) packet (b ∷ rest)) _ _
          (is_some d.expected && not (same_option (payload_type packet) d.expected))
          (media (b ∷ rest)).0 (media (b ∷ rest)).1

    pub feed_cases :
        P (drop_packet d, [])
        → P (account d (payload_type packet) packet [], [])
        → ((payload : Bytes)
            → (let d' = account d (payload_type packet) packet payload in
                P (record d' { skipped = d'.skipped + 1 }, [])
                × P (feed_codec d'.codec d' payload)))
        → P (feed rtp_payload d packet)
    unfolding feed after_unwrap
    feed_cases rejected no_media media = unwrap_cases rejected no_media media (rtp_payload packet)
