-- ===== src/Aac/Depacketizer/Framing.antt =====
-- About `AacHbrDepacketizer.feed` and `carries_aac_hbr`.
use ezviz_stream_bridge.Prelude.{
  ℕ, ◌+◌, ◌≤◌, ◌<◌, ◌≡◌, ◌≢◌, ◌⊎◌, ◌↔◌, refl, sym, ap, ◌∙◌, Bool, true, Option, none, some, List,
  [], ◌∷◌, ◌++◌, Bytes, All, every, leb, arith, length, append-nil, append_assoc, same_option_refl,
  length-append, if◌then◌else◌,
}
use ezviz_stream_bridge.Rtp.Detect.{payload_type}
use ezviz_stream_bridge.Aac.Section.{parse_au_section}
use ezviz_stream_bridge.Aac.Section.RoundTrip.{
  AccessUnit, IsAccessUnit, units_of, au_payload, parse_au_section-au_payload,
}
use ezviz_stream_bridge.Aac.Section.Exact.{parse_au_section_exact}
use ezviz_stream_bridge.Aac.Adts.{carries_aac_hbr, adts_max_au_bytes, adts_frame}
use ezviz_stream_bridge.Aac.Adts.Fields.{
  adts_frames, length-adts_frame, read_frames, read_frames-adts_frames,
}
use ezviz_stream_bridge.Aac.Depacketizer.{
  AacHbrDepacketizer, frame_units, feed_units, feed_payload, feed,
}

abbrev pub fit_frames : List Bytes → Bool
fit_frames units = every (λ unit. leb (length unit) adts_max_au_bytes) units

-- The loop frames every unit, or gives the packet up.
frame_units-adts_frames :
    (config : ℕ) (units : List Bytes) (frames : Bytes)
    → frame_units config units frames
      ≡ (if fit_frames units then some (frames ++ adts_frames config units) else none)
unfolding frame_units
frame_units-adts_frames config [] frames = ap some (sym (append-nil frames))
frame_units-adts_frames config (u ∷ us) frames = ground (
  arith,
  frame_units-adts_frames config us (frames ++ adts_frame u config),
  append_assoc frames (adts_frame u config) (adts_frames config us),
)

-- The packet is the audio's own: nothing else was asked for, or its payload type was.
abbrev pub IsOurs : AacHbrDepacketizer → Bytes → Type 0
IsOurs d packet = (d.expected ≡ none) ⊎ (payload_type packet ≡ d.expected)

-- What `feed` returns for a payload whose section reads as `parsed`.
abbrev pub framed : AacHbrDepacketizer → Option (List Bytes) → AacHbrDepacketizer × Bytes
framed d none = (record d { packets = d.packets + 1; dropped = d.dropped + 1 }, [])
framed d (some units) =
    if fit_frames units
    then (
      record d { packets = d.packets + 1; aus = d.aus + length units },
      adts_frames d.config units,
    )
    else (record d { packets = d.packets + 1; dropped = d.dropped + 1 }, [])

every_fits : (units : List Bytes) → All (λ unit. length unit ≤ 8184) units → fit_frames units ≡ true
every_fits [] h = refl
every_fits (u ∷ us) (h, hs) = ground (arith, every_fits us hs)

parse_au_section-nil : parse_au_section [] ≡ none
unfolding parse_au_section
parse_au_section-nil = refl

feed_units-framed :
    (d : AacHbrDepacketizer) (parsed : Option (List Bytes))
    → feed_units (record d { packets = d.packets + 1 }) parsed ≡ framed d parsed
unfolding feed_units
feed_units-framed d none = refl
feed_units-framed d (some units) = ground (arith, frame_units-adts_frames d.config units [])

module _ (rtp_payload : Bytes → Option Bytes) where
  feed-framed :
      (d : AacHbrDepacketizer) (packet payload : Bytes)
      → rtp_payload packet ≡ some payload
      → payload ≢ []
      → IsOurs d packet
      → feed rtp_payload d packet ≡ framed d (parse_au_section payload)
  unfolding feed feed_payload
  feed-framed d packet [] e some_bytes ours = absurd (some_bytes refl)
  feed-framed d packet (b ∷ rest) e some_bytes ours = ground (
    arith,
    same_option_refl (payload_type packet),
    feed_units-framed d (parse_au_section (b ∷ rest)),
  )

  framed_output :
      (d : AacHbrDepacketizer) (payload : Bytes) (parsed : Option (List Bytes))
      → parse_au_section payload ≡ parsed
      → (carries_aac_hbr payload ≡ true) ↔ (0 < length (framed d parsed).1)
  unfolding carries_aac_hbr
  framed_output d payload none e = ground (arith, e)
  framed_output d payload (some []) e = absurd (omega (arith, parse_au_section_exact payload [] e))
  framed_output d payload (some (u ∷ us)) e = ground (
    arith,
    e,
    length-append (adts_frame u d.config) (adts_frames d.config us),
    length-adts_frame d.config u,
  )

  carries_aac_hbr-feed :
      (d : AacHbrDepacketizer) (packet payload : Bytes)
      → rtp_payload packet ≡ some payload
      → IsOurs d packet
      → (carries_aac_hbr payload ≡ true) ↔ (0 < length (feed rtp_payload d packet).1)
  carries_aac_hbr-feed d packet [] e ours =
      unfold feed feed_payload carries_aac_hbr in ground (arith, parse_au_section-nil)
  carries_aac_hbr-feed d packet (b ∷ rest) e ours =
      rw (feed-framed d packet (b ∷ rest) e (λ p. cc) ours)
        (framed_output d (b ∷ rest) (parse_au_section (b ∷ rest)) refl)

  -- A packet of the audio's own type with media in it is all or nothing: every Access Unit of a
  -- well-formed section is framed, in order, and counted; and where the payload is no section, or
  -- one unit is too large for a frame, nothing is emitted and one packet is counted as dropped. It
  -- gives FFmpeg at least one byte of audio exactly when `carries_aac_hbr` is true of the payload.
  pub feed-carries_aac_hbr :
      (d : AacHbrDepacketizer) (packet payload : Bytes)
      → rtp_payload packet ≡ some payload
      → payload ≢ []
      → IsOurs d packet
      → (feed rtp_payload d packet ≡ framed d (parse_au_section payload))
        × ((carries_aac_hbr payload ≡ true) ↔ (0 < length (feed rtp_payload d packet).1))
  feed-carries_aac_hbr d packet payload e some_bytes ours =
      (feed-framed d packet payload e some_bytes ours, carries_aac_hbr-feed d packet payload e ours)

  -- The audio path end to end: what a camera puts in one `AAC-hbr` packet, framed by `feed` and
  -- split again by a demuxer that follows the length fields, is the same Access Units; they are
  -- counted, and nothing is dropped or skipped.
  pub feed-au_payload :
      (d : AacHbrDepacketizer) (packet : Bytes) (aus : List AccessUnit) (fuel : ℕ)
      → rtp_payload packet ≡ some (au_payload aus)
      → IsOurs d packet
      → All IsAccessUnit aus
      → All (λ unit. length unit ≤ 8184) (units_of aus)
      → 1 ≤ length aus
      → length aus < 4096
      → length (units_of aus) < fuel
      → (read_frames fuel (feed rtp_payload d packet).1 ≡ units_of aus)
        × ((feed rtp_payload d packet).0
            ≡ record d { packets = d.packets + 1; aus = d.aus + length (units_of aus) })
  feed-au_payload d packet aus fuel e ours fits small some_unit few enough =
      let parsed = parse_au_section-au_payload aus fits some_unit few in
      let fit : fit_frames (units_of aus) ≡ true = every_fits (units_of aus) small in
      let fed : feed rtp_payload d packet ≡ (
        record d { packets = d.packets + 1; aus = d.aus + length (units_of aus) },
        adts_frames d.config (units_of aus),
      ) =
        feed-framed d packet (au_payload aus) e (λ p. cc) ours
        ∙ ap (framed d) parsed
        ∙ rw fit refl in
      (
        ap (λ (r : AacHbrDepacketizer × Bytes). read_frames fuel r.1) fed
            ∙ read_frames-adts_frames d.config (units_of aus) fuel small enough,
        ap (λ (r : AacHbrDepacketizer × Bytes). r.0) fed,
      )
