-- ===== src/Session/Pump/Calm.antt =====
-- About a session without audio whose standard input takes every byte.
use mathlib.Core.Path.{subst}
use ezviz_stream_bridge.Prelude.{
  ℕ, ◌+◌, ◌≡◌, refl, sym, ap, ◌∙◌, Option, none, some, List, [], ◌∷◌, ◌++◌, Bytes, append-nil,
}
use ezviz_stream_bridge.Rtp.Depacketizer.{RtpDepacketizer, feed_all}
use ezviz_stream_bridge.Rtp.Depacketizer
use ezviz_stream_bridge.Session.Sinks.{
  no_input, stdin, sink_write, Sinks, Race, goes_on, write_video, feed,
}
use ezviz_stream_bridge.Session.Reading.{append_some}
use ezviz_stream_bridge.Session.Pump.{
  Pump, Pumping, pumping, ◌and_then◌, write_prelude, after_prelude, after_feed, feed_one,
  replay_packets,
}

-- The sinks of such a session, with what the input took.
abbrev pub calm_sinks : RtpDepacketizer → Bytes → ℕ → Sinks
calm_sinks d written at = record {
  video = stdin (record { failing = []; written = written });
  depacketizer = some d;
  audio = no_input;
  audio_depacketizer = none;
  audio_at = at;
}

-- The packets that are not empty.
unfoldable pub filled : List Bytes → List Bytes
filled [] = []
filled (body ∷ bodies) = append_some [] body ++ filled bodies

-- A part of the pump that went on, and where it left the sinks.
pub record Went (at : ℕ) (result : Pumping) (d : RtpDepacketizer) (written : Bytes) : Type 0 where
  pub state : Pump
  pub went : result ≡ pumping state
  pub sinks : state.sinks ≡ calm_sinks d written at

pub and_then-Went :
    {at : ℕ} (first : Pumping) (d : RtpDepacketizer) (written : Bytes) (again : Pump → Pumping)
    (d' : RtpDepacketizer) (written' : Bytes)
    → Went at first d written
    → ((p : Pump) → p.sinks ≡ calm_sinks d written at → Went at (again p) d' written')
    → Went at (first and_then again) d' written'
and_then-Went {at} first d written again d' written' w h =
    subst (λ r. Went at (r and_then again) d' written') (sym w.went) (h w.state w.sinks)

write_video-calm :
    (at : ℕ) (d : RtpDepacketizer) (written chunk : Bytes)
    → write_video (calm_sinks d written at) chunk ≡ goes_on (calm_sinks d (written ++ chunk) at)
write_video-calm at d written [] = ap (λ w. goes_on (calm_sinks d w at)) (sym (append-nil written))
write_video-calm at d written (b ∷ rest) =
    ap (λ w. goes_on (calm_sinks d w at)) (append-nil (written ++ (b ∷ rest)))

pub write_prelude-Went :
    {at : ℕ} (prelude : Bytes) (d : RtpDepacketizer) (written : Bytes) (p : Pump)
    → p.sinks ≡ calm_sinks d written at
    → Went at (write_prelude prelude p) d (written ++ prelude)
write_prelude-Went {at} [] d written p e = record {
  state = p;
  went = refl;
  sinks = e ∙ ap (λ w. calm_sinks d w at) (sym (append-nil written));
}
write_prelude-Went {at} (b ∷ rest) d written p e = record {
  state = record p { sinks = calm_sinks d (written ++ (b ∷ rest)) at };
  went = ap (λ s. after_prelude (record p { sinks = s }) (sink_write s.video (b ∷ rest))) e;
  sinks = refl;
}

module _ (rtp_payload : Bytes → Option Bytes) (races : ℕ → Race) (at : ℕ) where
  -- What a packet makes of the depacketizer and of what the input took.
  abbrev pub fed_body : Bytes → RtpDepacketizer → Bytes → RtpDepacketizer × Bytes
  fed_body body d written = feed_all rtp_payload d (filled (body ∷ [])) written

  feed-calm :
      (body : Bytes) (d : RtpDepacketizer) (written : Bytes) (race : Race)
      → feed rtp_payload (calm_sinks d written at) body race
        ≡ goes_on (calm_sinks (fed_body body d written).0 (fed_body body d written).1 at)
  unfolding feed filled feed_all
  feed-calm [] d written race = refl
  feed-calm (b ∷ rest) d written race =
      let fed = Depacketizer.feed rtp_payload d (b ∷ rest) in
      write_video-calm at fed.0 written fed.1

  pub feed_one-Went :
      (body : Bytes) (d : RtpDepacketizer) (written : Bytes) (p : Pump)
      → p.sinks ≡ calm_sinks d written at
      → Went at
          (feed_one rtp_payload races body p)
          (fed_body body d written).0
          (fed_body body d written).1
  feed_one-Went body d written p e = record {
    state = record p {
      sinks = calm_sinks (fed_body body d written).0 (fed_body body d written).1 at;
      feeds = p.feeds + 1;
    };
    went =
        ap (λ s. after_feed p (feed rtp_payload s body (races p.feeds))) e
        ∙ ap (after_feed p) (feed-calm body d written (races p.feeds));
    sinks = refl;
  }

  pub feed_all-append :
      (xs ys : List Bytes) (d : RtpDepacketizer) (written : Bytes)
      → feed_all rtp_payload d (xs ++ ys) written
        ≡ feed_all rtp_payload
            (feed_all rtp_payload d xs written).0
            ys
            (feed_all rtp_payload d xs written).1
  unfolding feed_all
  feed_all-append [] ys d written = refl
  feed_all-append (x ∷ xs) ys d written =
      let fed = Depacketizer.feed rtp_payload d x in feed_all-append xs ys fed.0 (written ++ fed.1)

  -- One packet, and then the rest.
  pub fed_body-rest :
      (body : Bytes) (bodies : List Bytes) (d : RtpDepacketizer) (written : Bytes)
      → feed_all rtp_payload (fed_body body d written).0 (filled bodies) (fed_body body d written).1
        ≡ feed_all rtp_payload d (filled (body ∷ bodies)) written
  unfolding filled feed_all
  fed_body-rest [] bodies d written = refl
  fed_body-rest (b ∷ rest) bodies d written = refl

  -- The replay in one pass feeds every packet.
  pub replay_packets-Went :
      (bodies : List Bytes) (d : RtpDepacketizer) (written : Bytes) (p : Pump)
      → p.sinks ≡ calm_sinks d written at
      → Went at
          (replay_packets rtp_payload races none bodies p)
          (feed_all rtp_payload d (filled bodies) written).0
          (feed_all rtp_payload d (filled bodies) written).1
  unfolding replay_packets
  replay_packets-Went [] d written p e =
      unfold filled feed_all in record { state = p; went = refl; sinks = e }
  replay_packets-Went (body ∷ bodies) d written p e =
      let fed = fed_body body d written in
      subst
        (λ r.
          Went at
            (feed_one rtp_payload races body p
              and_then replay_packets rtp_payload races none bodies)
            r.0 r.1)
        (fed_body-rest body bodies d written)
        (and_then-Went (feed_one rtp_payload races body p) fed.0 fed.1
          (replay_packets rtp_payload races none bodies) _ _ (feed_one-Went body d written p e)
          (λ q same. replay_packets-Went bodies fed.0 fed.1 q same))
