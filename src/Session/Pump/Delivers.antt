-- ===== src/Session/Pump/Delivers.antt =====
-- About the bytes that FFmpeg gets from a session without audio.
use mathlib.Core.Path.{subst}
use ezviz_stream_bridge.Prelude.{
  ℕ, ◌≡◌, refl, sym, ap, ◌∙◌, Bool, true, false, not, Option, none, some, List, [], ◌∷◌, ◌++◌,
  Bytes, if◌then◌else◌,
}
use ezviz_stream_bridge.Rtp.Constants.{Codec}
use ezviz_stream_bridge.Rtp.Packing.{annex_b}
use ezviz_stream_bridge.Rtp.Depacketizer.{RtpDepacketizer, new_depacketizer, feed_all}
use ezviz_stream_bridge.Rtp.Depacketizer
use ezviz_stream_bridge.Rtp.Depacketizer.Wire.{Wire}
use ezviz_stream_bridge.Rtp.Depacketizer.Refine.{feed_all-Delivered_after}
use ezviz_stream_bridge.ProgramStream.{Inspector}
use ezviz_stream_bridge.Session.Plan.{PayloadPlan, Caches}
use ezviz_stream_bridge.Session.Accept.{Arrival, Metrics, not_video, accepted, count_video, accept}
use ezviz_stream_bridge.Session.Reading.{Item, yields}
use ezviz_stream_bridge.Session.Sinks.{no_input, stdin, Race}
use ezviz_stream_bridge.Session.Pump.{
  Pump, Pumping, pumping, ◌and_then◌, observed, observe, write_prelude, replay, pump_body,
  pump_accepted, pump_items, run_pump, new_pump, end_pump, pump_vtm_to_ffmpeg, Pumped,
  finish_video_pipe, finish_depacketizer, depacketizer_for, audio_depacketizer_for,
}
use ezviz_stream_bridge.Session.Pump.Calm.{
  calm_sinks, filled, Went, and_then-Went, write_prelude-Went, fed_body, feed_one-Went,
  feed_all-append, fed_body-rest, replay_packets-Went,
}

-- What the iterator hands to a session that goes on until it ends or is cancelled, with the bodies of
-- its packets of a stream up to there; no exception, and no packet that is encrypted.
pub data Hands : List Item → List Bytes → Type 0 where
  over : Hands [] []
  stops : {a : Arrival} {items : List Item} → a.cancelled ≡ true → Hands (yields a ∷ items) []
  skips :
      {a : Arrival} {items : List Item} {bodies : List Bytes}
      → a.cancelled ≡ false
      → a.is_stream ≡ false
      → Hands items bodies
      → Hands (yields a ∷ items) bodies
  hands :
      {a : Arrival} {items : List Item} {bodies : List Bytes}
      → a.cancelled ≡ false
      → a.is_stream ≡ true
      → a.encrypted ≡ false
      → Hands items bodies
      → Hands (yields a ∷ items) (a.body ∷ bodies)

observe-sinks :
    (serial : ℕ) (inspector : Option Inspector) (bodies : List Bytes) (p : Pump)
    → (observed serial inspector bodies p).sinks ≡ p.sinks
observe-sinks serial none bodies p = refl
observe-sinks serial (some inspector) bodies p = refl

on_bool : {A : Type 0} (b c : Bool) (x y : A) → b ≡ c → (if b then x else y) ≡ (if c then x else y)
on_bool b c x y e = ap (λ b. if b then x else y) e

module _ (rtp_payload : Bytes → Option Bytes) (races : ℕ → Race) (serial at : ℕ) where
  accept-not_video :
      (a : Arrival) (metrics : Metrics)
      → a.is_stream ≡ false
      → accept rtp_payload a metrics ≡ not_video
  unfolding accept
  accept-not_video a metrics e = on_bool (not a.is_stream) true _ _ (ap not e)

  accept-accepted :
      (a : Arrival) (metrics : Metrics)
      → a.is_stream ≡ true
      → a.encrypted ≡ false
      → accept rtp_payload a metrics ≡ accepted a.body (count_video rtp_payload a metrics)
  unfolding accept
  accept-accepted a metrics e f =
      on_bool (not a.is_stream) false _ _ (ap not e) ∙ on_bool a.encrypted false _ _ f

  if-Went :
      (b : Bool) (p : Pump) (again : Pumping) (d : RtpDepacketizer) (written : Bytes)
      → b ≡ false
      → Went at again d written
      → Went at (if b then pumping p else again) d written
  if-Went b p again d written e w = subst (λ r. Went at r d written) (sym (on_bool b false _ _ e)) w

  pump_body-Went :
      (body : Bytes) (d : RtpDepacketizer) (written : Bytes) (p : Pump)
      → p.sinks ≡ calm_sinks d written at
      → Went at
          (pump_body rtp_payload races serial body p)
          (fed_body rtp_payload races at body d written).0
          (fed_body rtp_payload races at body d written).1
  pump_body-Went body d written p e =
      feed_one-Went rtp_payload races at body d written (observe serial (body ∷ []) p)
        (observe-sinks serial p.inspector (body ∷ []) p ∙ e)

  pump_items-Went :
      {items : List Item} {bodies : List Bytes} (h : Hands items bodies) (d : RtpDepacketizer)
      (written : Bytes) (p : Pump)
      → p.sinks ≡ calm_sinks d written at
      → Went at
          (pump_items rtp_payload races serial items p)
          (feed_all rtp_payload d (filled bodies) written).0
          (feed_all rtp_payload d (filled bodies) written).1
  unfolding pump_items
  pump_items-Went over d written p e =
      unfold filled feed_all in record { state = p; went = refl; sinks = e }
  pump_items-Went (stops {a = a} {items = items} cancelled) d written p e =
      unfold filled feed_all in
      record { state = p; went = on_bool a.cancelled true _ _ cancelled; sinks = e }
  pump_items-Went (skips {a = a} {items = items} {bodies = bodies} runs other later) d written p e =
      let again = pump_items rtp_payload races serial items in
      if-Went a.cancelled p _ _ _ runs (
        subst
          (λ r.
            Went at (pump_accepted rtp_payload races serial r p and_then again)
              (feed_all rtp_payload d (filled bodies) written).0
              (feed_all rtp_payload d (filled bodies) written).1)
          (sym (accept-not_video a p.metrics other)) (pump_items-Went later d written p e))
  pump_items-Went (hands {a = a} {items = items} {bodies = bodies} runs is_stream clear later) d
        written p e =
      let again = pump_items rtp_payload races serial items in
      let fed = fed_body rtp_payload races at a.body d written in
      if-Went a.cancelled p _ _ _ runs (
        subst
          (λ r.
            Went at (pump_accepted rtp_payload races serial r p and_then again)
              (feed_all rtp_payload d (filled (a.body ∷ bodies)) written).0
              (feed_all rtp_payload d (filled (a.body ∷ bodies)) written).1)
          (sym (accept-accepted a p.metrics is_stream clear))
          (subst
            (λ r.
              Went at
                (pump_body rtp_payload races serial a.body
                    (record p { metrics = count_video rtp_payload a p.metrics })
                  and_then again)
                r.0 r.1)
            (fed_body-rest rtp_payload races at a.body bodies d written)
            (and_then-Went _ fed.0 fed.1 again _ _
              (pump_body-Went a.body d written
                (record p { metrics = count_video rtp_payload a p.metrics }) e)
              (λ q same. pump_items-Went later fed.0 fed.1 q same))))

  replay-Went :
      (plan : PayloadPlan) (d : RtpDepacketizer) (written : Bytes) (p : Pump)
      → p.sinks ≡ calm_sinks d written at
      → (let opened = (written ++ plan.parameter_prelude) ++ plan.container_prelude in
          let fed = feed_all rtp_payload d (filled plan.packets) opened in
          Went at (replay rtp_payload races none plan p) fed.0 fed.1)
  replay-Went plan d written p e =
      let opened = (written ++ plan.parameter_prelude) ++ plan.container_prelude in
      and_then-Went
        (write_prelude plan.parameter_prelude p and_then write_prelude plan.container_prelude) d
        opened _ _ _
        (and_then-Went (write_prelude plan.parameter_prelude p) d
          (written ++ plan.parameter_prelude) _ d opened
          (write_prelude-Went plan.parameter_prelude d written p e)
          (λ q same.
            write_prelude-Went plan.container_prelude d (written ++ plan.parameter_prelude) q same))
        (λ q same. replay_packets-Went rtp_payload races at plan.packets d opened q same)

  run_pump-Went :
      {items : List Item} {bodies : List Bytes} (h : Hands items bodies) (plan : PayloadPlan)
      (d : RtpDepacketizer) (p : Pump)
      → p.sinks ≡ calm_sinks d [] at
      → (let opened = plan.parameter_prelude ++ plan.container_prelude in
          let fed = feed_all rtp_payload d (filled plan.packets ++ filled bodies) opened in
          Went at (run_pump rtp_payload races serial plan items p) fed.0 fed.1)
  run_pump-Went {items} {bodies} h plan d p e =
      let opened = plan.parameter_prelude ++ plan.container_prelude in
      let replayed = feed_all rtp_payload d (filled plan.packets) opened in
      let last = feed_all rtp_payload replayed.0 (filled bodies) replayed.1 in
      let seen = observe serial plan.packets p in
      let same = observe-sinks serial p.inspector plan.packets p ∙ e in
      subst (λ r. Went at (run_pump rtp_payload races serial plan items p) r.0 r.1)
        (sym (feed_all-append rtp_payload races at (filled plan.packets) (filled bodies) d opened))
        (subst
          (λ o.
            Went at
              (replay rtp_payload races o plan seen
                and_then pump_items rtp_payload races serial items)
              last.0 last.1)
          (sym (ap (λ s. s.audio_depacketizer) e))
          (and_then-Went (replay rtp_payload races none plan seen) replayed.0 replayed.1 _ _ _
            (replay-Went plan d [] seen same)
            (λ q same'. pump_items-Went h replayed.0 replayed.1 q same')))

-- What a pump without audio leaves: the standard input took the stream, the depacketizer dropped
-- nothing and holds nothing, and there is no error.
pub record Serves (stream : Bytes) (pumped : Pumped) : Type 0 where
  pub taken : pumped.left.sinks.video ≡ stdin (record { failing = []; written = stream })
  pub depacketizer : RtpDepacketizer
  pub used : pumped.left.sinks.depacketizer ≡ some depacketizer
  pub lossless : depacketizer.dropped ≡ 0
  pub closed : depacketizer.fragment ≡ none
  pub no_error : pumped.has_error ≡ false

flush-closed : (d : RtpDepacketizer) → d.fragment ≡ none → Depacketizer.flush d ≡ d
unfolding Depacketizer.flush
flush-closed d e =
    ap (λ o. elim o [ none ↦ d | some _ ↦ Depacketizer.drop_packet (record d { fragment = none }) ])
      e

end_pump-Serves :
    {at : ℕ} (is_gone cancelled : Bool) (result : Pumping) (d : RtpDepacketizer) (stream : Bytes)
    → Went at result d stream
    → d.dropped ≡ 0
    → d.fragment ≡ none
    → Serves stream (end_pump is_gone cancelled result)
end_pump-Serves {at} is_gone cancelled result d stream w lossless closed =
    subst (λ r. Serves stream (end_pump is_gone cancelled r)) (sym w.went)
      (record {
        taken = ap (λ s. finish_video_pipe s.video) w.sinks;
        depacketizer = d;
        used =
            ap (λ s. finish_depacketizer s.depacketizer) w.sinks ∙ ap some (flush-closed d closed);
        lossless = lossless;
        closed = closed;
        no_error = refl;
      })

-- A session of an RTP stream without audio, whose iterator ends or is cancelled and whose standard
-- input takes every byte: FFmpeg gets the preludes of the plan and then the Annex-B stream of exactly
-- the NAL units that the sender put on the wire, in order, from the leading packets to the last one of
-- the loop. Nothing is dropped, and the session is left without an error.
pub pump_vtm_to_ffmpeg-Serves :
    (rtp_payload : Bytes → Option Bytes) (races : ℕ → Race) (serial at : ℕ) (codec : Codec)
    (plan : PayloadPlan) (caches : Caches) (metrics : Metrics) (is_gone cancelled : Bool)
    {items : List Item} {bodies nals : List Bytes}
    → plan.codec ≡ some codec
    → plan.audio_payload_type ≡ none
    → Hands items bodies
    → Wire rtp_payload codec plan.payload_type none (filled plan.packets ++ filled bodies) nals
    → Serves ((plan.parameter_prelude ++ plan.container_prelude) ++ annex_b nals) (
        pump_vtm_to_ffmpeg rtp_payload races serial plan
          (stdin (record { failing = []; written = [] }))
          no_input
          at
          caches
          metrics
          items
          is_gone
          cancelled)
unfolding pump_vtm_to_ffmpeg
pump_vtm_to_ffmpeg-Serves rtp_payload races serial at codec plan caches metrics is_gone cancelled
      {items} {bodies} is_codec no_audio h wire =
    let opened = plan.parameter_prelude ++ plan.container_prelude in
    let d = new_depacketizer codec plan.payload_type in
    let start =
      new_pump plan (stdin (record { failing = []; written = [] })) no_input at caches metrics in
    let fed = feed_all rtp_payload d (filled plan.packets ++ filled bodies) opened in
    let delivered = feed_all-Delivered_after rtp_payload codec plan.payload_type wire opened in
    let calm : start.sinks ≡ calm_sinks d [] at =
      ap
        (λ o. record (calm_sinks d [] at) {
          depacketizer = depacketizer_for o plan.payload_type;
          audio_depacketizer = audio_depacketizer_for plan.audio_payload_type plan.audio_channels;
        })
        is_codec
      ∙ ap
          (λ o. record (calm_sinks d [] at) {
            audio_depacketizer = audio_depacketizer_for o plan.audio_channels;
          })
          no_audio in
    subst
      (λ stream.
        Serves stream
          (end_pump is_gone cancelled (run_pump rtp_payload races serial plan items start)))
      delivered.stream
      (end_pump-Serves is_gone cancelled _ fed.0 fed.1
        (run_pump-Went rtp_payload races serial at h plan d start calm) delivered.lossless
        delivered.closed)
