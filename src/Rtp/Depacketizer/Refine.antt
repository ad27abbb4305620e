-- ===== src/Rtp/Depacketizer/Refine.antt =====
-- The depacketizer beside the sender of RFC 6184 and RFC 7798.
use ezviz_stream_bridge.Prelude.{
  ℕ, ◌+◌, ◌≡◌, ◌≢◌, refl, sym, ap, ◌∙◌, Bool, true, false, Option, none, some, List, [], ◌∷◌, ◌++◌,
  Bytes, arith, append-nil, append_assoc, same_option_refl, same_option→eq,
}
use ezviz_stream_bridge.Rtp.Constants.{Codec, start_code}
use ezviz_stream_bridge.Rtp.Packing.{annex_b, annex_b-append}
use ezviz_stream_bridge.Rtp.Detect.{payload_type}
use ezviz_stream_bridge.Rtp.Depacketizer.{
  RtpDepacketizer, new_depacketizer, account, feed_codec, feed_media, feed, feed_all,
}
use ezviz_stream_bridge.Rtp.Depacketizer.Wire.{Single, Bundle, Start, More, Carries, Wire}
use ezviz_stream_bridge.Rtp.Depacketizer.Steps.{Single-step, Bundle-step, Start-step, More-step}

Single-nonempty : {c : Codec} {p : Bytes} → Single c p → p ≢ []
Single-nonempty (Single.h264_single _ _ _ _ _) e = cc
Single-nonempty (Single.hevc_single _ _ _ _) e = cc

Bundle-nonempty : {c : Codec} {p : Bytes} {us : List Bytes} → Bundle c p us → p ≢ []
Bundle-nonempty (Bundle.stap_a _ _ _ _) e = cc
Bundle-nonempty (Bundle.ap _ _ _ _ _) e = cc

Start-nonempty : {c : Codec} {p nal : Bytes} → Start c p nal → p ≢ []
Start-nonempty (Start.fu_a _ _ _) e = cc
Start-nonempty (Start.fu _ _ _ _) e = cc

More-nonempty : {c : Codec} {last : Bool} {p chunk : Bytes} → More c last p chunk → p ≢ []
More-nonempty (More.fu_a _ _ _ _) e = cc
More-nonempty (More.fu _ _ _ _ _) e = cc

module _ (rtp_payload : Bytes → Option Bytes) (codec : Codec) (expected : Option ℕ) where
  -- The depacketizer is bound to this stream, and holds `partial` of an open NAL unit.
  record Bound (d : RtpDepacketizer) (partial : Option Bytes) : Type 0 where
    reads : d.codec ≡ codec
    wants : d.expected ≡ expected
    holds : d.fragment ≡ partial

  -- A packet of this stream goes to the codec's method, after the account.
  feed_ours :
      (d : RtpDepacketizer) (packet payload : Bytes)
      → payload ≢ []
      → d.codec ≡ codec
      → d.expected ≡ expected
      → Carries rtp_payload codec expected packet payload
      → feed rtp_payload d packet
        ≡ feed_codec codec (account d (payload_type packet) packet payload) payload
  unfolding feed feed_media
  feed_ours d packet [] some_bytes reads wants c = absurd (some_bytes refl)
  feed_ours d packet (b ∷ rest) some_bytes reads wants c =
      ground (arith, c.unwraps, c.is_ours, same_option_refl (payload_type packet))

  feed_no_media :
      (d : RtpDepacketizer) (packet : Bytes)
      → rtp_payload packet ≡ some []
      → feed rtp_payload d packet ≡ (account d (payload_type packet) packet [], [])
  unfolding feed
  feed_no_media d packet e = ground arith

  feed_other_type :
      (d : RtpDepacketizer) (packet payload : Bytes) (pt : ℕ)
      → rtp_payload packet ≡ some payload
      → d.expected ≡ some pt
      → payload_type packet ≢ some pt
      → (d' : RtpDepacketizer) × (feed rtp_payload d packet ≡ (d', []))
        × (d'.fragment ≡ d.fragment)
        × (d'.dropped ≡ d.dropped)
        × (d'.codec ≡ d.codec)
        × (d'.expected ≡ d.expected)
  unfolding feed feed_media
  feed_other_type d packet [] pt e wants other =
      (account d (payload_type packet) packet [], ground arith, refl, refl, refl, refl)
  feed_other_type d packet (b ∷ rest) pt e wants other =
      let d' = account d (payload_type packet) packet (b ∷ rest) in
      (
        record d' { skipped = d'.skipped + 1 },
        ground (arith, same_option→eq (payload_type packet) (some pt)),
        refl,
        refl,
        refl,
        refl,
      )

  feed_all_step :
      (d d' : RtpDepacketizer) (packet : Bytes) (packets : List Bytes) (chunk out : Bytes)
      → feed rtp_payload d packet ≡ (d', chunk)
      → feed_all rtp_payload d (packet ∷ packets) out
        ≡ feed_all rtp_payload d' packets (out ++ chunk)
  unfolding feed_all
  feed_all_step d d' packet packets chunk out e =
      ap (λ (r : RtpDepacketizer × Bytes). feed_all rtp_payload r.0 packets (out ++ r.1)) e

  -- The stream grew by the NAL units, nothing is left open and nothing was dropped.
  pub record Delivered (d : RtpDepacketizer) (nals : List Bytes) (out : Bytes)
      (result : RtpDepacketizer × Bytes) : Type 0 where
    pub stream : result.1 ≡ out ++ annex_b nals
    pub closed : result.0.fragment ≡ none
    pub lossless : result.0.dropped ≡ d.dropped

  -- One packet that contributes `chunk`, the Annex-B form of `nals`, before the rest of the wire.
  deliver_step :
      (d d' : RtpDepacketizer) (packet : Bytes) (packets nals rest : List Bytes) (chunk out : Bytes)
      → feed rtp_payload d packet ≡ (d', chunk)
      → chunk ≡ annex_b nals
      → d'.dropped ≡ d.dropped
      → Delivered d' rest (out ++ chunk) (feed_all rtp_payload d' packets (out ++ chunk))
      → Delivered d (nals ++ rest) out (feed_all rtp_payload d (packet ∷ packets) out)
  deliver_step d d' packet packets nals rest chunk out e c kept v =
      rw (feed_all_step d d' packet packets chunk out e) (record {
        stream =
            v.stream
            ∙ append_assoc out chunk (annex_b rest)
            ∙ ap (λ t. out ++ (t ++ annex_b rest)) c
            ∙ ap (λ t. out ++ t) (sym (annex_b-append nals rest));
        closed = v.closed;
        lossless = v.lossless ∙ kept;
      })

  depacketize-Wire :
      {partial : Option Bytes} {packets nals : List Bytes}
      → Wire rtp_payload codec expected partial packets nals
      → (d : RtpDepacketizer) (out : Bytes) → Bound d partial
      → Delivered d nals out (feed_all rtp_payload d packets out)
  depacketize-Wire Wire.ends d out b = record {
    stream = unfold feed_all in sym (append-nil out);
    closed = unfold feed_all in b.holds;
    lossless = unfold feed_all in refl;
  }
  depacketize-Wire (Wire.no_media packet e w) d out b =
      let d' = account d (payload_type packet) packet [] in
      deliver_step d d' packet _ [] _ [] out (feed_no_media d packet e) refl refl (
        depacketize-Wire w d' (out ++ [])
          (record { reads = b.reads; wants = b.wants; holds = b.holds }))
  depacketize-Wire (Wire.other_type packet payload pt e wants other w) d out b =
      let (d', fed, holds, kept, reads, still) =
        feed_other_type d packet payload pt e (b.wants ∙ wants) other in
      deliver_step d d' packet _ [] _ [] out fed refl kept (
        depacketize-Wire w d' (out ++ [])
          (record { reads = reads ∙ b.reads; wants = still ∙ b.wants; holds = holds ∙ b.holds }))
  depacketize-Wire (Wire.single packet nal s c w) d out b =
      let d' = account d (payload_type packet) packet nal in
      deliver_step d d' packet _ (nal ∷ []) _ (start_code ++ nal) out
        (feed_ours d packet nal (Single-nonempty s) b.reads b.wants c ∙ Single-step codec nal d' s)
        (ap (λ t. start_code ++ t) (sym (append-nil nal))) refl
        (depacketize-Wire w d' _ (record { reads = b.reads; wants = b.wants; holds = b.holds }))
  depacketize-Wire (Wire.bundle packet payload units s sized c w) d out b =
      let d' = account d (payload_type packet) packet payload in
      deliver_step d d' packet _ units _ (annex_b units) out
        (feed_ours d packet payload (Bundle-nonempty s) b.reads b.wants c
          ∙ Bundle-step codec payload units d' s sized)
        refl refl
        (depacketize-Wire w d' _ (record { reads = b.reads; wants = b.wants; holds = b.holds }))
  depacketize-Wire (Wire.starts packet payload nal s fits c w) d out b =
      let d' = account d (payload_type packet) packet payload in
      deliver_step d (record d' { fragment = some nal }) packet _ [] _ [] out
        (feed_ours d packet payload (Start-nonempty s) b.reads b.wants c
          ∙ Start-step codec payload nal d' s b.holds fits)
        refl refl
        (depacketize-Wire w _ _ (record { reads = b.reads; wants = b.wants; holds = refl }))
  depacketize-Wire (Wire.goes_on packet payload nal chunk s fits c w) d out b =
      let d' = account d (payload_type packet) packet payload in
      deliver_step d (record d' { fragment = some (nal ++ chunk) }) packet _ [] _ [] out
        (feed_ours d packet payload (More-nonempty s) b.reads b.wants c
          ∙ More-step codec false payload chunk nal d' s b.holds fits)
        refl refl
        (depacketize-Wire w _ _ (record { reads = b.reads; wants = b.wants; holds = refl }))
  depacketize-Wire (Wire.finishes packet payload nal chunk s fits c w) d out b =
      let d' = account d (payload_type packet) packet payload in
      deliver_step d (record d' { fragment = none }) packet _ ((nal ++ chunk) ∷ []) _
        (start_code ++ (nal ++ chunk)) out
        (feed_ours d packet payload (More-nonempty s) b.reads b.wants c
          ∙ More-step codec true payload chunk nal d' s b.holds fits)
        (ap (λ t. start_code ++ t) (sym (append-nil (nal ++ chunk)))) refl
        (depacketize-Wire w _ _ (record { reads = b.reads; wants = b.wants; holds = refl }))

  -- The same of a fresh depacketizer, whose output is appended to `out`.
  pub feed_all-Delivered_after :
      {packets nals : List Bytes}
      → Wire rtp_payload codec expected none packets nals
      → (out : Bytes)
      → Delivered
          (new_depacketizer codec expected)
          nals
          out
          (feed_all rtp_payload (new_depacketizer codec expected) packets out)
  feed_all-Delivered_after w out =
      depacketize-Wire w _ out (record { reads = refl; wants = refl; holds = refl })

  -- Whatever mix of single NAL units, aggregates and fragments a sender puts on the wire, with
  -- packets of other payload types and packets with no media at any place between them, a fresh
  -- depacketizer turns it into the Annex-B stream of the same NAL units, in order; it drops
  -- nothing and holds no open fragment at the end.
  pub feed_all-Delivered :
      {packets nals : List Bytes}
      → Wire rtp_payload codec expected none packets nals
      → Delivered
          (new_depacketizer codec expected)
          nals
          []
          (feed_all rtp_payload (new_depacketizer codec expected) packets [])
  feed_all-Delivered w = feed_all-Delivered_after w []
