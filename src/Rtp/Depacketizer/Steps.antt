-- ===== src/Rtp/Depacketizer/Steps.antt =====
-- The depacketizer on each payload that a sender writes.
use ezviz_stream_bridge.Prelude.{
  ℕ, zero, suc, ◌+◌, ◌*◌, ◌/◌, ◌%◌, ◌≤◌, ◌≡◌, refl, Bool, true, false, none, some, List, [], ◌∷◌,
  ◌++◌, Bytes, All, arith, length, drop, slice, from_bytes, append-nil, append_assoc, ap, ◌∙◌,
  length-append,
}
use ezviz_stream_bridge.Prelude.Bits.{
  bit_and-0x80, bit_and-0x40, bit_and-0x1f, bit_and-0x3f, bit_and-0xe0, bit_and-0x81,
  bit_or_h264_header, bit_or_hevc_header,
}
use ezviz_stream_bridge.Rtp.Constants.{Codec, start_code, max_nal_bytes}
use ezviz_stream_bridge.Rtp.Depacketizer.{
  RtpDepacketizer, h264_fragment, hevc_fragment, feed_h264, feed_hevc, feed_codec, aggregate_loop,
  aggregate,
}
use ezviz_stream_bridge.Rtp.Depacketizer.Wire.{Single, Bundle, Start, More}
use ezviz_stream_bridge.Rtp.Packing.{
  IsSized, join_units, annex_b, length-rest, room, read_size, read_unit, read_rest,
}

pub Single-step :
    (codec : Codec) (nal : Bytes) (d : RtpDepacketizer)
    → Single codec nal
    → feed_codec codec d nal ≡ (d, start_code ++ nal)
unfolding feed_h264 feed_hevc
Single-step codec nal d (Single.h264_single header body lt low high) =
    ground (arith, bit_and-0x80 header, bit_and-0x1f header)
Single-step codec nal d (Single.hevc_single header layer body lt) =
    ground (arith, bit_and-0x80 header, bit_and-0x3f (header / 2))

pub Start-step :
    (codec : Codec) (payload nal : Bytes) (d : RtpDepacketizer)
    → Start codec payload nal
    → d.fragment ≡ none
    → length nal ≤ max_nal_bytes
    → feed_codec codec d payload ≡ (record d { fragment = some nal }, [])
unfolding feed_h264 feed_hevc h264_fragment hevc_fragment
Start-step codec payload nal d (Start.fu_a header chunk lt) idle fits = ground (
  arith,
  bit_and-0x80 (header / 32 * 32 + 28),
  bit_and-0x1f (header / 32 * 32 + 28),
  bit_and-0xe0 (header / 32 * 32 + 28),
  bit_and-0x80 (128 + header % 32),
  bit_and-0x40 (128 + header % 32),
  bit_and-0x1f (128 + header % 32),
  bit_or_h264_header header,
)
Start-step codec payload nal d (Start.fu header layer chunk lt) idle fits = ground (
  arith,
  bit_and-0x80 (98 + header % 2),
  bit_and-0x3f ((98 + header % 2) / 2),
  bit_and-0x81 (98 + header % 2),
  bit_and-0x80 (128 + header / 2),
  bit_and-0x40 (128 + header / 2),
  bit_and-0x3f (128 + header / 2),
  bit_or_hevc_header header,
)

-- A later fragment grows the NAL unit, and the last one emits it.
abbrev pub after_more : Bool → RtpDepacketizer → Bytes → RtpDepacketizer × Bytes
after_more true d nal = (record d { fragment = none }, start_code ++ nal)
after_more false d nal = (record d { fragment = some nal }, [])

pub More-step :
    (codec : Codec) (last : Bool) (payload chunk nal : Bytes) (d : RtpDepacketizer)
    → More codec last payload chunk
    → d.fragment ≡ some nal
    → length (nal ++ chunk) ≤ max_nal_bytes
    → feed_codec codec d payload ≡ after_more last d (nal ++ chunk)
unfolding feed_h264 feed_hevc h264_fragment hevc_fragment
More-step codec true payload chunk nal d (More.fu_a header last _ lt) has fits = ground (
  arith,
  bit_and-0x80 (header / 32 * 32 + 28),
  bit_and-0x1f (header / 32 * 32 + 28),
  bit_and-0x80 (64 + header % 32),
  bit_and-0x40 (64 + header % 32),
)
More-step codec false payload chunk nal d (More.fu_a header last _ lt) has fits = ground (
  arith,
  bit_and-0x80 (header / 32 * 32 + 28),
  bit_and-0x1f (header / 32 * 32 + 28),
  bit_and-0x80 (0 + header % 32),
  bit_and-0x40 (0 + header % 32),
)
More-step codec true payload chunk nal d (More.fu header layer last _ lt) has fits = ground (
  arith,
  bit_and-0x80 (98 + header % 2),
  bit_and-0x3f ((98 + header % 2) / 2),
  bit_and-0x80 (64 + header / 2),
  bit_and-0x40 (64 + header / 2),
)
More-step codec false payload chunk nal d (More.fu header layer last _ lt) has fits = ground (
  arith,
  bit_and-0x80 (98 + header % 2),
  bit_and-0x3f ((98 + header % 2) / 2),
  bit_and-0x80 (0 + header / 2),
  bit_and-0x40 (0 + header / 2),
)

annex_b_step :
    (out u : Bytes) (us : List Bytes)
    → (out ++ (start_code ++ u)) ++ annex_b us ≡ out ++ annex_b (u ∷ us)
annex_b_step out u us =
    append_assoc out (start_code ++ u) (annex_b us)
    ∙ ap (λ t. out ++ t) (append_assoc start_code u (annex_b us))

aggregate_loop-join_units :
    (fuel : ℕ) (d : RtpDepacketizer) (payload : Bytes) (offset : ℕ) (out : Bytes)
    (units : List Bytes)
    → drop offset payload ≡ join_units units
    → All IsSized units
    → length (join_units units) ≤ fuel
    → aggregate_loop fuel d payload offset out ≡ (d, out ++ annex_b units)
unfolding aggregate_loop
aggregate_loop-join_units zero d payload offset out [] here sized enough =
    ground (arith, append-nil out)
aggregate_loop-join_units (suc fuel) d payload offset out [] here sized enough =
    ground (arith, append-nil out, length-rest payload offset [] here)
aggregate_loop-join_units zero d payload offset out (u ∷ us) here sized enough =
    absurd (omega arith)
aggregate_loop-join_units (suc fuel) d payload offset out (u ∷ us) here (size, sized) enough =
    let rest = join_units us in
    ground (
      arith,
      room payload offset u rest here,
      read_size payload offset u rest here,
      read_unit payload offset u rest here (from_bytes (slice payload offset (offset + 2))),
      read_rest payload offset u rest here (length u) refl,
      length-append u rest,
      annex_b_step out u us,
      aggregate_loop-join_units fuel d payload (offset + (2 + length u)) (out ++ (start_code ++ u))
          us,
    )

aggregate_bundle :
    (d : RtpDepacketizer) (payload : Bytes) (offset : ℕ) (units : List Bytes)
    → drop offset payload ≡ join_units units
    → All IsSized units
    → aggregate d payload offset ≡ (d, annex_b units)
unfolding aggregate
aggregate_bundle d payload offset units here sized =
    aggregate_loop-join_units (length payload) d payload offset [] units here sized
      (omega (arith, length-rest payload offset (join_units units) here))

pub Bundle-step :
    (codec : Codec) (payload : Bytes) (units : List Bytes) (d : RtpDepacketizer)
    → Bundle codec payload units
    → All IsSized units
    → feed_codec codec d payload ≡ (d, annex_b units)
unfolding feed_h264 feed_hevc
Bundle-step codec payload units d (Bundle.stap_a header _ lt type) sized = ground (
  arith,
  bit_and-0x80 header,
  bit_and-0x1f header,
  aggregate_bundle d (header ∷ join_units units) 1 units refl sized,
)
Bundle-step codec payload units d (Bundle.ap header layer _ lt type) sized = ground (
  arith,
  bit_and-0x80 header,
  bit_and-0x3f (header / 2),
  aggregate_bundle d (header ∷ layer ∷ join_units units) 2 units refl sized,
)
