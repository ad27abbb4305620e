-- ===== src/Rtp/Depacketizer/Wire.antt =====
-- What a sender puts on the wire, stated with no reference to the receiver: the payloads of
-- RFC 6184 and RFC 7798 for a NAL unit sent alone, in an aggregate, or in fragments.
use ezviz_stream_bridge.Prelude.{
  ℕ, ◌+◌, ◌*◌, ◌/◌, ◌%◌, ◌≤◌, ◌<◌, ◌≡◌, ◌≢◌, ◌⊎◌, Bool, true, false, Option, none, some, List, [],
  ◌∷◌, ◌++◌, Bytes, All, length,
}
use ezviz_stream_bridge.Rtp.Constants.{Codec, h264, hevc, max_nal_bytes}
use ezviz_stream_bridge.Rtp.Packing.{IsSized, join_units}
use ezviz_stream_bridge.Rtp.Detect.{payload_type}

-- A payload that is one NAL unit, its type in the range of single units.
pub data Single : Codec → Bytes → Type 0 where
  h264_single :
      (header : ℕ) (body : Bytes)
      → header < 128
      → 1 ≤ header % 32
      → header % 32 ≤ 23
      → Single h264 (header ∷ body)
  hevc_single :
      (header layer : ℕ) (body : Bytes) → header < 96 → Single hevc (header ∷ layer ∷ body)

-- A payload that bundles NAL units: `Bundle codec payload units`.
pub data Bundle : Codec → Bytes → List Bytes → Type 0 where
  stap_a :
      (header : ℕ) (units : List Bytes)
      → header < 128
      → header % 32 ≡ 24
      → Bundle h264 (header ∷ join_units units) units
  ap :
      (header layer : ℕ) (units : List Bytes)
      → header < 128
      → header / 2 ≡ 48
      → Bundle hevc (header ∷ layer ∷ join_units units) units

-- The first fragment: `Start codec payload nal`, with what of the NAL unit it carries.
pub data Start : Codec → Bytes → Bytes → Type 0 where
  fu_a :
      (header : ℕ) (chunk : Bytes)
      → header < 128
      → Start h264 ((header / 32 * 32 + 28) ∷ (128 + header % 32) ∷ chunk) (header ∷ chunk)
  fu :
      (header layer : ℕ) (chunk : Bytes)
      → header < 128
      → Start hevc ((98 + header % 2) ∷ layer ∷ (128 + header / 2) ∷ chunk) (header ∷ layer ∷ chunk)

-- The end bit of a fragment header.
abbrev pub end_bit : Bool → ℕ
end_bit true = 64
end_bit false = 0

-- A later fragment: `More codec last payload chunk`.
pub data More : Codec → Bool → Bytes → Bytes → Type 0 where
  fu_a :
      (header : ℕ) (last : Bool) (chunk : Bytes)
      → header < 128
      → More h264 last ((header / 32 * 32 + 28) ∷ (end_bit last + header % 32) ∷ chunk) chunk
  fu :
      (header layer : ℕ) (last : Bool) (chunk : Bytes)
      → header < 128
      → More hevc last ((98 + header % 2) ∷ layer ∷ (end_bit last + header / 2) ∷ chunk) chunk

-- The packets of one session, from a state where `partial` is what has been sent of a NAL unit in
-- fragments: `Wire partial packets nals` when `packets` carry the NAL units `nals`, in order, beside
-- packets of other payload types and packets with no media, at any place.
module _ (rtp_payload : Bytes → Option Bytes) (codec : Codec) (expected : Option ℕ) where
  -- The packet belongs to this elementary stream and carries `payload`.
  pub record Carries (packet payload : Bytes) : Type 0 where
    pub unwraps : rtp_payload packet ≡ some payload
    pub is_ours : (expected ≡ none) ⊎ (payload_type packet ≡ expected)

  pub data Wire : Option Bytes → List Bytes → List Bytes → Type 0 where
    ends : Wire none [] []
    no_media :
        {partial : Option Bytes} {packets nals : List Bytes} (packet : Bytes)
        → rtp_payload packet ≡ some []
        → Wire partial packets nals
        → Wire partial (packet ∷ packets) nals
    other_type :
        {partial : Option Bytes} {packets nals : List Bytes} (packet payload : Bytes) (pt : ℕ)
        → rtp_payload packet ≡ some payload
        → expected ≡ some pt
        → payload_type packet ≢ some pt
        → Wire partial packets nals
        → Wire partial (packet ∷ packets) nals
    single :
        {packets nals : List Bytes} (packet nal : Bytes)
        → Single codec nal
        → Carries packet nal
        → Wire none packets nals
        → Wire none (packet ∷ packets) (nal ∷ nals)
    bundle :
        {packets nals : List Bytes} (packet payload : Bytes) (units : List Bytes)
        → Bundle codec payload units
        → All IsSized units
        → Carries packet payload
        → Wire none packets nals
        → Wire none (packet ∷ packets) (units ++ nals)
    starts :
        {packets nals : List Bytes} (packet payload nal : Bytes)
        → Start codec payload nal
        → length nal ≤ max_nal_bytes
        → Carries packet payload
        → Wire (some nal) packets nals
        → Wire none (packet ∷ packets) nals
    goes_on :
        {packets nals : List Bytes} (packet payload nal chunk : Bytes)
        → More codec false payload chunk
        → length (nal ++ chunk) ≤ max_nal_bytes
        → Carries packet payload
        → Wire (some (nal ++ chunk)) packets nals
        → Wire (some nal) (packet ∷ packets) nals
    finishes :
        {packets nals : List Bytes} (packet payload nal chunk : Bytes)
        → More codec true payload chunk
        → length (nal ++ chunk) ≤ max_nal_bytes
        → Carries packet payload
        → Wire none packets nals
        → Wire (some nal) (packet ∷ packets) ((nal ++ chunk) ∷ nals)
