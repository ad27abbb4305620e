-- ===== src/Rtp/Depacketizer.antt =====
-- ezviz_stream_bridge/rtp.py, lines 153 to 174 and 332 to 542: `PayloadTypeStat` and
-- `RtpDepacketizer`. A method takes the object's state and returns the new state beside its result.
pub mod Wire
mod Steps
mod Cases
pub mod Refine
pub mod Bounds
pub mod Visible
pub mod Account
pub mod Report
use ezviz_stream_bridge.Prelude.{
  ℕ, zero, suc, ◌+◌, ◌/◌, ◌*◌, min, max, Bool, true, false, not, ◌&&◌, ◌||◌, Option, none, some,
  List, [], ◌∷◌, ◌++◌, Bytes, length, take, drop, byte_at, slice, from_bytes, ltb, leb, ◌==◌,
  is_some, same_option, bit_and, bit_or, if◌then◌else◌,
}
use ezviz_stream_bridge.Rtp.Constants.{
  Codec, h264, hevc, start_code, h264_stap_a, h264_fu_a, hevc_ap, hevc_fu, hevc_single_nal_max,
  h264_single_nal_max, h264_fu_header, hevc_nal_header, hevc_fu_header, rtp_header_bytes,
  max_nal_bytes, sample_bytes,
}
use ezviz_stream_bridge.Rtp.Detect.{has_bits, payload_type}

pub record PayloadTypeStat : Type 0 where
  pub payload_type : Option ℕ
  pub packets : ℕ
  pub media : ℕ
  pub smallest : ℕ
  pub largest : ℕ
  pub header : Bytes
  pub payload : Bytes

-- `PayloadTypeStat(payload_type)`
abbrev pub new_stat : Option ℕ → PayloadTypeStat
new_stat pt = record {
  payload_type = pt;
  packets = 0;
  media = 0;
  smallest = 0;
  largest = 0;
  header = [];
  payload = [];
}

-- `types` is the dict `_types`, in insertion order; each entry holds its own key.
pub record RtpDepacketizer : Type 0 where
  pub codec : Codec
  pub expected : Option ℕ
  pub dropped : ℕ
  pub skipped : ℕ
  pub types : List PayloadTypeStat
  pub fragment : Option Bytes

-- `__init__`; `expected` is the field `payload_type`.
abbrev pub new_depacketizer : Codec → Option ℕ → RtpDepacketizer
new_depacketizer codec expected = record {
  codec = codec;
  expected = expected;
  dropped = 0;
  skipped = 0;
  types = [];
  fragment = none;
}

-- `_drop`
abbrev pub drop_packet : RtpDepacketizer → RtpDepacketizer
drop_packet d = record d { dropped = d.dropped + 1 }

-- `_append`
unfoldable pub append : RtpDepacketizer → Bytes → RtpDepacketizer × Bool
append d chunk = elim d.fragment [
  | none ↦ (d, false)
  | some fragment ↦
      let grown = fragment ++ chunk in
      if ltb max_nal_bytes (length grown)
      then (drop_packet (record d { fragment = none }), false)
      else (record d { fragment = some grown }, true)
]

abbrev pub or_empty : Option Bytes → Bytes
or_empty none = []
or_empty (some bytes) = bytes

-- `_emit_fragment`
abbrev pub emit_fragment : RtpDepacketizer → RtpDepacketizer × Bytes
emit_fragment d = (record d { fragment = none }, start_code ++ or_empty d.fragment)

-- The start of a fragmented NAL: one that was still open is lost, and counted.
abbrev pub begin_fragment : RtpDepacketizer → Bytes → RtpDepacketizer
begin_fragment d header = record (if is_some d.fragment then drop_packet d else d) {
  fragment = some header;
}

-- The end of both fragment methods: append the chunk, and emit the NAL on its last fragment.
abbrev pub end_fragment : RtpDepacketizer × Bool → ℕ → RtpDepacketizer × Bytes
end_fragment (d, false) fu_header = (d, [])
end_fragment (d, true) fu_header = if has_bits fu_header 0x40 then emit_fragment d else (d, [])

-- `_h264_fragment`
unfoldable pub h264_fragment : RtpDepacketizer → Bytes → RtpDepacketizer × Bytes
unfolding append
h264_fragment d payload =
    let fu_header = byte_at payload 1 in
    if ltb (length payload) h264_fu_header
    then (drop_packet d, [])
    else if has_bits fu_header 0x80
    then end_fragment
        (append
          (begin_fragment d
            (bit_or (bit_and (byte_at payload 0) 0xE0) (bit_and fu_header 0x1F) ∷ []))
          (drop 2 payload))
        fu_header
    else if is_some d.fragment
    then end_fragment (append d (drop 2 payload)) fu_header
    else (drop_packet d, [])

-- The `while` loop of `_aggregate`: each round moves `offset` by at least three bytes.
unfoldable pub aggregate_loop : ℕ → RtpDepacketizer → Bytes → ℕ → Bytes → RtpDepacketizer × Bytes
aggregate_loop zero d payload offset out = (d, out)
aggregate_loop (suc fuel) d payload offset out =
    let size = from_bytes (slice payload offset (offset + 2)) in
    let unit = slice payload (offset + 2) (offset + 2 + size) in
    let rest = aggregate_loop fuel d payload (offset + (2 + size)) (out ++ (start_code ++ unit)) in
    if leb (offset + 2) (length payload)
    then (if size == 0 || not (length unit == size) then (drop_packet d, out) else rest)
    else (d, out)

-- `_aggregate`
unfoldable pub aggregate : RtpDepacketizer → Bytes → ℕ → RtpDepacketizer × Bytes
unfolding aggregate_loop
aggregate d payload offset = aggregate_loop (length payload) d payload offset []

-- `_h264`
unfoldable pub feed_h264 : RtpDepacketizer → Bytes → RtpDepacketizer × Bytes
feed_h264 d payload =
    let nal_type = bit_and (byte_at payload 0) 0x1F in
    if has_bits (byte_at payload 0) 0x80
    then (drop_packet d, [])
    else if ltb 0 nal_type && leb nal_type h264_single_nal_max
    then (d, start_code ++ payload)
    else if nal_type == h264_stap_a
    then aggregate d payload 1
    else if nal_type == h264_fu_a
    then h264_fragment d payload
    else (drop_packet d, [])

-- `_hevc_fragment`
unfoldable pub hevc_fragment : RtpDepacketizer → Bytes → RtpDepacketizer × Bytes
unfolding append
hevc_fragment d payload =
    let fu_header = byte_at payload 2 in
    let nal_header =
      bit_or (bit_and (byte_at payload 0) 0x81) (bit_and fu_header 0x3F * 2)
      ∷ byte_at payload 1
      ∷ [] in
    if ltb (length payload) hevc_fu_header
    then (drop_packet d, [])
    else if has_bits fu_header 0x80
    then end_fragment (append (begin_fragment d nal_header) (drop 3 payload)) fu_header
    else if is_some d.fragment
    then end_fragment (append d (drop 3 payload)) fu_header
    else (drop_packet d, [])

-- `_hevc`
unfoldable pub feed_hevc : RtpDepacketizer → Bytes → RtpDepacketizer × Bytes
feed_hevc d payload =
    let nal_type = bit_and (byte_at payload 0 / 2) 0x3F in
    if ltb (length payload) hevc_nal_header || has_bits (byte_at payload 0) 0x80
    then (drop_packet d, [])
    else if leb nal_type hevc_single_nal_max
    then (d, start_code ++ payload)
    else if nal_type == hevc_ap
    then aggregate d payload 2
    else if nal_type == hevc_fu
    then hevc_fragment d payload
    else (drop_packet d, [])

-- `bytes or default`
abbrev pub or_bytes : Bytes → Bytes → Bytes
or_bytes [] other = other
or_bytes (b ∷ rest) other = b ∷ rest

-- What `_account` does to the entry of the packet's payload type.
unfoldable pub account_stat : PayloadTypeStat → Bytes → Bytes → PayloadTypeStat
account_stat stat packet [] = record stat { packets = stat.packets + 1 }
account_stat stat packet (b ∷ rest) =
    let size = length (b ∷ rest) in
    record stat {
      packets = stat.packets + 1;
      header = or_bytes stat.header (take rtp_header_bytes packet);
      smallest = if stat.media == 0 then size else min stat.smallest size;
      largest = max stat.largest size;
      media = stat.media + 1;
      payload = or_bytes stat.payload (take sample_bytes (b ∷ rest));
    }

unfoldable pub account_types :
    List PayloadTypeStat → Option ℕ → Bytes → Bytes → List PayloadTypeStat
unfolding account_stat
account_types [] pt packet payload = account_stat (new_stat pt) packet payload ∷ []
account_types (stat ∷ stats) pt packet payload =
    if same_option stat.payload_type pt
    then account_stat stat packet payload ∷ stats
    else stat ∷ account_types stats pt packet payload

-- `_account`
abbrev pub account : RtpDepacketizer → Option ℕ → Bytes → Bytes → RtpDepacketizer
account d pt packet payload = record d { types = account_types d.types pt packet payload }

-- The two codecs' methods, as `feed` chooses between them.
abbrev pub feed_codec : Codec → RtpDepacketizer → Bytes → RtpDepacketizer × Bytes
feed_codec h264 d payload = feed_h264 d payload
feed_codec hevc d payload = feed_hevc d payload

-- `feed` after the unwrap and the account, on a payload that is not empty.
unfoldable pub feed_media : RtpDepacketizer → Bytes → Bytes → RtpDepacketizer × Bytes
feed_media d packet payload =
    if is_some d.expected && not (same_option (payload_type packet) d.expected)
    then (record d { skipped = d.skipped + 1 }, [])
    else feed_codec d.codec d payload

-- `flush`
unfoldable pub flush : RtpDepacketizer → RtpDepacketizer
flush d = elim d.fragment [ none ↦ d | some _ ↦ drop_packet (record d { fragment = none }) ]

-- `sorted(..., key=lambda stat: -stat.packets)`, which is stable: entries with equal counts keep
-- their order.
unfoldable pub insert_stat : PayloadTypeStat → List PayloadTypeStat → List PayloadTypeStat
insert_stat stat [] = stat ∷ []
insert_stat stat (next ∷ stats) =
    if leb next.packets stat.packets then stat ∷ next ∷ stats else next ∷ insert_stat stat stats

unfoldable pub sort_stats : List PayloadTypeStat → List PayloadTypeStat
unfolding insert_stat
sort_stats [] = []
sort_stats (stat ∷ stats) = insert_stat stat (sort_stats stats)

-- The property `payload_types`.
unfoldable pub payload_types : RtpDepacketizer → List PayloadTypeStat
unfolding sort_stats
payload_types d = sort_stats d.types

-- `rtp_payload` is `pyezvizapi.stream.rtp_payload`, which strips the RTP header, the CSRC list, the
-- extension and the padding; `none` is the `PyEzvizError` that it raises.
module _ (rtp_payload : Bytes → Option Bytes) where
  unfoldable pub feed : RtpDepacketizer → Bytes → RtpDepacketizer × Bytes
  unfolding feed_media
  feed d packet = elim (rtp_payload packet) [
    | none ↦ (drop_packet d, [])
    | some [] ↦ (account d (payload_type packet) packet [], [])
    | some (b ∷ rest) ↦
        feed_media (account d (payload_type packet) packet (b ∷ rest)) packet (b ∷ rest)
  ]

  -- The loop over packets that collects what they contribute.
  unfoldable pub feed_all : RtpDepacketizer → List Bytes → Bytes → RtpDepacketizer × Bytes
  feed_all d [] stream = (d, stream)
  feed_all d (packet ∷ packets) stream =
      let (d', chunk) = feed d packet in feed_all d' packets (stream ++ chunk)
