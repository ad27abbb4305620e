-- ===== src/Session/Remux/EndToEnd.antt =====
-- About the whole way from the packets of a camera to the standard input of FFmpeg.
use mathlib.Core.Path.{subst}
use ezviz_stream_bridge.Prelude.{
  ℕ, ◌≡◌, refl, sym, ap, ◌∙◌, Bool, true, false, Option, none, some, List, [], ◌∷◌, ◌++◌, Bytes,
  All, append_assoc, Bool-cases, inl, inr, if◌then◌else◌,
}
use ezviz_stream_bridge.Rtp.Constants.{Codec}
use ezviz_stream_bridge.Rtp.Packing.{annex_b}
use ezviz_stream_bridge.Rtp.Depacketizer.Wire.{Wire}
use ezviz_stream_bridge.Session.Plan.{PayloadPlan, Caches}
use ezviz_stream_bridge.Session.Accept.{Arrival, Metrics}
use ezviz_stream_bridge.Session.Reading.{Item, yields, raises, finishes, append_some, read_prefix}
use ezviz_stream_bridge.Session.Reading.Kept.{
  IsCalm, IsBroken, at_raise, at_locked, behind, body_of, bodies, IsKept,
}
use ezviz_stream_bridge.Session.Reading.Whole.{IsRead, read_prefix-IsRead}
use ezviz_stream_bridge.Session.Pump.Calm.{filled}
use ezviz_stream_bridge.Session.Pump.Delivers.{
  Hands, over, skips, hands, Serves, pump_vtm_to_ffmpeg-Serves,
}
use ezviz_stream_bridge.Session.Remux.{
  Surroundings, remuxed, after_read, start_pump, remux, video_input, audio_input,
}
use ezviz_stream_bridge.Session.Sinks.{no_input, stdin}
use ezviz_stream_bridge.Session.Pump.{Pumped, pump_vtm_to_ffmpeg}

filled-append : (xs ys : List Bytes) → filled (xs ++ ys) ≡ filled xs ++ filled ys
unfolding filled
filled-append [] ys = refl
filled-append (x ∷ xs) ys =
    ap (λ t. append_some [] x ++ t) (filled-append xs ys)
    ∙ sym (append_assoc (append_some [] x) (filled xs) (filled ys))

filled-append_some : (body : Bytes) → filled (append_some [] body) ≡ append_some [] body
unfolding filled
filled-append_some [] = refl
filled-append_some (b ∷ rest) = refl

body_filled : (a : Arrival) → filled (body_of a) ≡ body_of a
unfolding filled
body_filled a = go a.is_stream
  where
    go :
        (b : Bool)
        → filled (if b then append_some [] a.body else [])
          ≡ (if b then append_some [] a.body else [])
    go true = filled-append_some a.body
    go false = refl

filled-bodies : (items : List Item) → filled (bodies items) ≡ bodies items
unfolding filled
filled-bodies [] = refl
filled-bodies (raises cancelled ∷ items) = filled-bodies items
filled-bodies (yields a ∷ items) =
    filled-append (body_of a) (bodies items)
    ∙ ap (λ t. t ++ filled (bodies items)) (body_filled a)
    ∙ ap (λ t. body_of a ++ t) (filled-bodies items)

-- What a stream that is neither cancelled nor broken hands to the pump.
record IsHanded (items : List Item) : Type 0 where
  pub handed : List Bytes
  pub hands_them : Hands items handed
  pub same : filled handed ≡ bodies items

on_stream : (b c : Bool) (xs : List Bytes) → b ≡ c → (if b then xs else []) ≡ (if c then xs else [])
on_stream b c xs e = ap (λ b. if b then xs else []) e

IsCalm-IsHanded : (items : List Item) → All IsCalm items → (IsBroken items → ⊥) → IsHanded items
unfolding filled
IsCalm-IsHanded [] calm sound = record { handed = []; hands_them = over; same = refl }
IsCalm-IsHanded (raises cancelled ∷ items) calm sound = absurd (sound (at_raise cancelled items))
IsCalm-IsHanded (yields a ∷ items) (calm, later) sound =
    let rest = IsCalm-IsHanded items later (λ broken. sound (behind (yields a) items broken)) in
    elim (Bool-cases a.is_stream) [
      | inr other ↦ record {
        handed = rest.handed;
        hands_them = skips calm.0 other rest.hands_them;
        same = rest.same ∙ ap (λ t. t ++ bodies items) (sym (on_stream a.is_stream false _ other));
      }
      | inl video ↦ elim (Bool-cases a.encrypted) [
        | inl locked ↦ absurd (sound (at_locked a items video locked))
        | inr clear ↦ record {
          handed = a.body ∷ rest.handed;
          hands_them = hands calm.0 video clear rest.hands_them;
          same =
              ap (λ t. append_some [] a.body ++ t) rest.same
              ∙ ap (λ t. t ++ bodies items) (sym (on_stream a.is_stream true _ video));
        }
      ]
    ]

-- The whole of it, for a plan without audio and an input that takes every byte.
module _ (rtp_payload : Bytes → Option Bytes) (around : Surroundings) (serial : ℕ) where
  kept-Wire :
      {nals : List Bytes} {before metrics' : Metrics} (codec : Codec) (plan : PayloadPlan)
      (items rest : List Item)
      → IsKept [] before items plan.packets metrics' rest
      → (h : IsHanded rest) → Wire rtp_payload codec plan.payload_type none (bodies items) nals
      → Wire rtp_payload codec plan.payload_type none (filled plan.packets ++ filled h.handed) nals
  kept-Wire {nals} codec plan items rest kept h wire =
      subst (λ packets. Wire rtp_payload codec plan.payload_type none packets nals)
        (sym (
          ap (λ t. filled plan.packets ++ t) (h.same ∙ sym (filled-bodies rest))
          ∙ sym (filled-append plan.packets (bodies rest))
          ∙ ap filled (sym kept.same_bodies)
          ∙ filled-bodies items))
        wire

  start_pump-Serves :
      {bodies_ nals : List Bytes} (codec : Codec) (plan : PayloadPlan) (caches : Caches)
      (metrics : Metrics) (items : List Item)
      → around.stdin_failing ≡ []
      → plan.codec ≡ some codec
      → plan.audio_payload_type ≡ none
      → Hands items bodies_
      → Wire rtp_payload codec plan.payload_type none (filled plan.packets ++ filled bodies_) nals
      → Serves
          ((plan.parameter_prelude ++ plan.container_prelude) ++ annex_b nals)
          (start_pump rtp_payload around serial plan caches metrics items)
  start_pump-Serves {bodies_} {nals} codec plan caches metrics items takes_all is_codec no_audio h
        wire =
      subst
        (λ o. Serves ((plan.parameter_prelude ++ plan.container_prelude) ++ annex_b nals) (
          pump_vtm_to_ffmpeg rtp_payload around.races serial plan (video_input around o)
            (audio_input around o) around.begins caches metrics items around.is_gone
            around.cancelled))
        (sym no_audio)
        (subst
          (λ failing. Serves ((plan.parameter_prelude ++ plan.container_prelude) ++ annex_b nals) (
            pump_vtm_to_ffmpeg rtp_payload around.races serial plan
              (stdin (record { failing = failing; written = [] })) no_input around.begins caches
              metrics items around.is_gone around.cancelled))
          (sym takes_all)
          (pump_vtm_to_ffmpeg-Serves rtp_payload around.races serial around.begins codec plan caches
            metrics around.is_gone around.cancelled is_codec no_audio h wire))

  -- When nothing cancels a session, its stream neither raises nor yields an encrypted packet, and the
  -- leading packets lead to a plan of a codec without audio, then the pump runs and the standard input
  -- of FFmpeg takes the preludes of the plan and the Annex-B stream of exactly the NAL units that the
  -- sender put on the wire, in order, from the first packet of the session to the last; no matter where
  -- the reading of the leading packets stopped. Nothing is dropped, and no error is left.
  pub remux-Serves :
      {nals : List Bytes} (codec : Codec) (audio_window now : ℕ) (caches caches' : Caches)
      (items rest : List Item) (metrics metrics' : Metrics) (plan : PayloadPlan)
      → All IsCalm items
      → (IsBroken items → ⊥)
      → around.stdin_failing ≡ []
      → read_prefix rtp_payload serial audio_window now false caches items metrics
        ≡ (finishes plan metrics' rest, caches')
      → plan.codec ≡ some codec
      → plan.audio_payload_type ≡ none
      → Wire rtp_payload codec plan.payload_type none (bodies items) nals
      → (pumped : Pumped) × (remux rtp_payload around serial audio_window now false false caches
            items metrics
          ≡ remuxed plan pumped)
        × Serves ((plan.parameter_prelude ++ plan.container_prelude) ++ annex_b nals) pumped
  unfolding remux
  remux-Serves {nals} codec audio_window now caches caches' items rest metrics metrics' plan calm
        sound takes_all read is_codec no_audio wire =
      let (kept, audible) =
        subst (λ r. IsRead rtp_payload [] metrics items r.0) read
          (read_prefix-IsRead rtp_payload serial audio_window now caches items metrics calm) in
      let handed =
        IsCalm-IsHanded rest kept.still_calm (λ broken. sound (kept.broken_before broken)) in
      (
        start_pump rtp_payload around serial plan caches' metrics' rest,
        ap (after_read rtp_payload around serial false) read,
        start_pump-Serves codec plan caches' metrics' rest takes_all is_codec no_audio
            handed.hands_them (kept-Wire codec plan items rest kept handed wire),
      )
