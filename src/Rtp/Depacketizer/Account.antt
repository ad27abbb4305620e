-- ===== src/Rtp/Depacketizer/Account.antt =====
-- About `_account` and the breakdown by payload type.
use ezviz_stream_bridge.Prelude.{
  ℕ, zero, suc, ◌+◌, ◌≤◌, ◌≡◌, ◌⊎◌, inl, inr, refl, Option, none, some, List, [], ◌∷◌, ◌++◌, Bytes,
  slice, from_bytes, All, arith, length, take, min, max, ◌==◌, length-take, same_option,
  same_option_refl, same_option→eq, is_some, Bool-cases, if◌then◌else◌,
}
use ezviz_stream_bridge.Rtp.Constants.{
  Codec, h264, hevc, rtp_header_bytes, sample_bytes, start_code,
}
use ezviz_stream_bridge.Rtp.Detect.{payload_type}
use ezviz_stream_bridge.Rtp.Depacketizer.{
  PayloadTypeStat, RtpDepacketizer, new_stat, account, account_stat, account_types, h264_fragment,
  hevc_fragment, aggregate_loop, aggregate, feed_h264, feed_hevc, feed_codec, feed, feed_media,
  feed_all, or_bytes,
}

pub record IsStat (stat : PayloadTypeStat) : Type 0 where
  pub some_media : stat.media ≤ stat.packets
  pub ordered : stat.smallest ≤ stat.largest
  pub header_fits : length stat.header ≤ rtp_header_bytes
  pub sample_fits : length stat.payload ≤ sample_bytes
  pub measured : (stat.media ≡ 0) ⊎ (1 ≤ stat.smallest)

smallest_le_largest :
    (media smallest largest size : ℕ)
    → (if media == 0 then size else min smallest size) ≤ max largest size
smallest_le_largest media smallest largest size = ground arith

one_le_smallest :
    (media smallest size : ℕ)
    → 1 ≤ size
    → (media ≡ 0) ⊎ (1 ≤ smallest)
    → 1 ≤ (if media == 0 then size else min smallest size)
one_le_smallest media smallest size h k = ground arith

or_bytes_fits : (n : ℕ) (old new : Bytes) → length old ≤ n → length (or_bytes old (take n new)) ≤ n
or_bytes_fits n [] new h = omega (arith, length-take n new)
or_bytes_fits n (b ∷ rest) new h = h

account_stat-IsStat :
    (stat : PayloadTypeStat) (packet payload : Bytes)
    → IsStat stat
    → IsStat (account_stat stat packet payload)
unfolding account_stat
account_stat-IsStat stat packet [] h = record {
  some_media = omega (arith, h.some_media);
  ordered = h.ordered;
  header_fits = h.header_fits;
  sample_fits = h.sample_fits;
  measured = h.measured;
}
account_stat-IsStat stat packet (b ∷ rest) h = record {
  some_media = omega (arith, h.some_media);
  ordered = smallest_le_largest stat.media stat.smallest stat.largest (length (b ∷ rest));
  header_fits = or_bytes_fits rtp_header_bytes stat.header packet h.header_fits;
  sample_fits = or_bytes_fits sample_bytes stat.payload (b ∷ rest) h.sample_fits;
  measured =
      inr (one_le_smallest stat.media stat.smallest (length (b ∷ rest)) (omega arith) h.measured);
}

new_stat-IsStat : (pt : Option ℕ) → IsStat (new_stat pt)
new_stat-IsStat pt = record {
  some_media = omega arith;
  ordered = omega arith;
  header_fits = omega arith;
  sample_fits = omega arith;
  measured = inl refl;
}

account_types-IsStat :
    (stats : List PayloadTypeStat) (pt : Option ℕ) (packet payload : Bytes)
    → All IsStat stats
    → All IsStat (account_types stats pt packet payload)
unfolding account_types
account_types-IsStat [] pt packet payload h =
    (account_stat-IsStat (new_stat pt) packet payload (new_stat-IsStat pt), tt)
account_types-IsStat (stat ∷ stats) pt packet payload (h, hs) =
    elim (Bool-cases (same_option stat.payload_type pt)) [
      | inl same ↦ rw same (account_stat-IsStat stat packet payload h, hs)
      | inr other ↦ rw other (h, account_types-IsStat stats pt packet payload hs)
    ]

-- All packets that the breakdown has counted.
abbrev pub counted : List PayloadTypeStat → ℕ
counted [] = 0
counted (stat ∷ stats) = stat.packets + counted stats

counted-account_types :
    (stats : List PayloadTypeStat) (pt : Option ℕ) (packet payload : Bytes)
    → counted (account_types stats pt packet payload) ≡ counted stats + 1
unfolding account_types account_stat
counted-account_types [] pt packet [] = ground arith
counted-account_types [] pt packet (b ∷ rest) = ground arith
counted-account_types (stat ∷ stats) pt packet [] =
    ground (arith, counted-account_types stats pt packet [])
counted-account_types (stat ∷ stats) pt packet (b ∷ rest) =
    ground (arith, counted-account_types stats pt packet (b ∷ rest))

-- The entry of a payload type.
abbrev pub lookup : Option ℕ → List PayloadTypeStat → Option PayloadTypeStat
lookup pt [] = none
lookup pt (stat ∷ stats) = if same_option stat.payload_type pt then some stat else lookup pt stats

abbrev pub or_new : Option ℕ → Option PayloadTypeStat → PayloadTypeStat
or_new pt none = new_stat pt
or_new pt (some stat) = stat

stat_key :
    (stat : PayloadTypeStat) (packet payload : Bytes)
    → (account_stat stat packet payload).payload_type ≡ stat.payload_type
unfolding account_stat
stat_key stat packet [] = refl
stat_key stat packet (b ∷ rest) = refl

-- A packet changes the entry of its own payload type, and no other.
pub lookup-account_types :
    (stats : List PayloadTypeStat) (pt other : Option ℕ) (packet payload : Bytes)
    → lookup other (account_types stats pt packet payload) ≡ (
        if same_option pt other
        then some (account_stat (or_new pt (lookup pt stats)) packet payload)
        else lookup other stats)
unfolding account_types
lookup-account_types [] pt other packet payload = rw (stat_key (new_stat pt) packet payload) refl
lookup-account_types (stat ∷ stats) pt other packet payload = ground (
  arith,
  same_option→eq stat.payload_type pt,
  same_option→eq stat.payload_type other,
  same_option→eq pt other,
  same_option_refl pt,
  same_option_refl other,
  stat_key stat packet payload,
  lookup-account_types stats pt other packet payload,
)

aggregate_loop_types :
    (fuel : ℕ) (d : RtpDepacketizer) (payload : Bytes) (offset : ℕ) (out : Bytes)
    → (aggregate_loop fuel d payload offset out).0.types ≡ d.types
unfolding aggregate_loop
aggregate_loop_types zero d payload offset out = refl
aggregate_loop_types (suc fuel) d payload offset out =
    let size = from_bytes (slice payload offset (offset + 2)) in
    let unit = slice payload (offset + 2) (offset + 2 + size) in
    ground (
      arith,
      aggregate_loop_types fuel d payload (offset + (2 + size)) (out ++ (start_code ++ unit)),
    )

feed_codec_types :
    (codec : Codec) (d : RtpDepacketizer) (payload : Bytes)
    → (feed_codec codec d payload).0.types ≡ d.types
unfolding feed_h264 feed_hevc h264_fragment hevc_fragment aggregate
feed_codec_types h264 d payload =
    ground (arith, aggregate_loop_types (length payload) d payload 1 [])
feed_codec_types hevc d payload =
    ground (arith, aggregate_loop_types (length payload) d payload 2 [])

-- The breakdown after one more packet, by what the unwrap made of it.
abbrev pub accounted : List PayloadTypeStat → Bytes → Option Bytes → List PayloadTypeStat
accounted stats packet none = stats
accounted stats packet (some payload) = account_types stats (payload_type packet) packet payload

module _ (rtp_payload : Bytes → Option Bytes) where
  feed_types :
      (d : RtpDepacketizer) (packet : Bytes)
      → (feed rtp_payload d packet).0.types ≡ accounted d.types packet (rtp_payload packet)
  unfolding feed feed_media
  feed_types d packet = go (rtp_payload packet) refl
    where
      go :
          (o : Option Bytes)
          → rtp_payload packet ≡ o
          → (feed rtp_payload d packet).0.types ≡ accounted d.types packet o
      go none e = ground arith
      go (some []) e = ground arith
      go (some (b ∷ rest)) e =
          let d' = account d (payload_type packet) packet (b ∷ rest) in
          ground (arith, feed_codec_types d.codec d' (b ∷ rest))

  -- The packets that the unwrap accepts.
  abbrev pub accepted : List Bytes → ℕ
  accepted [] = 0
  accepted (packet ∷ packets) =
      if is_some (rtp_payload packet) then 1 + accepted packets else accepted packets

  counted-accounted :
      (stats : List PayloadTypeStat) (packet : Bytes) (o : Option Bytes)
      → counted (accounted stats packet o)
        ≡ (if is_some o then counted stats + 1 else counted stats)
  counted-accounted stats packet none = refl
  counted-accounted stats packet (some payload) =
      counted-account_types stats (payload_type packet) packet payload

  pub feed_all-counted :
      (packets : List Bytes) (d : RtpDepacketizer) (out : Bytes)
      → counted (feed_all rtp_payload d packets out).0.types ≡ counted d.types + accepted packets
  unfolding feed_all
  feed_all-counted [] d out = omega arith
  feed_all-counted (packet ∷ packets) d out =
      let (d', chunk) = feed rtp_payload d packet in
      ground (
        arith,
        feed_types d packet,
        counted-accounted d.types packet (rtp_payload packet),
        feed_all-counted packets d' (out ++ chunk),
      )

  accounted-IsStat :
      (stats : List PayloadTypeStat) (packet : Bytes) (o : Option Bytes)
      → All IsStat stats
      → All IsStat (accounted stats packet o)
  accounted-IsStat stats packet none h = h
  accounted-IsStat stats packet (some payload) h =
      account_types-IsStat stats (payload_type packet) packet payload h

  pub feed_all-IsStat :
      (packets : List Bytes) (d : RtpDepacketizer) (out : Bytes)
      → All IsStat d.types
      → All IsStat (feed_all rtp_payload d packets out).0.types
  unfolding feed_all
  feed_all-IsStat [] d out h = h
  feed_all-IsStat (packet ∷ packets) d out h =
      feed_all-IsStat packets _ _
        (rw (feed_types d packet) (accounted-IsStat d.types packet (rtp_payload packet) h))
