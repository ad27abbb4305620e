-- ===== src/Session/Reading/Whole.antt =====
-- About the whole of `_read_prefix`.
use ezviz_stream_bridge.Prelude.{
  ℕ, ◌+◌, ◌≡◌, refl, sym, ◌∙◌, Bool, true, false, Option, none, some, List, [], Bytes, All, ◌==◌,
  append-nil, if◌then◌else◌,
}
use mathlib.Core.Path.{subst}
use ezviz_stream_bridge.Rtp.Constants.{Codec}
use ezviz_stream_bridge.ProgramStream.{ParameterSets, new_inspector}
use ezviz_stream_bridge.Session.Prefix.{
  Transport, mpeg_ps, mpeg_ts, rtp, unknown, prefix_audio, audio_channels,
}
use ezviz_stream_bridge.Session.Plan.{
  PayloadPlan, Caches, OpenedWith, decide, decide_transport, decide_named, named_codec,
  decide_mpeg_ps, found_mpeg_ps, join_rtp, join_mpeg_ps, transport_of, lookup, inspect_packets,
}
use ezviz_stream_bridge.Session.Reading.{
  Item, Ending, finishes, fails, Window, prefix_loop, window_loop, heard_plan, open_window,
  with_audio, plan_audio, plan_prefix, read_prefix,
}
use ezviz_stream_bridge.Session.Accept.{Metrics}
use ezviz_stream_bridge.Session.Reading.Kept.{IsBroken, IsCalm, Keeps, IsKept}
use ezviz_stream_bridge.Session.Reading.Audible.{
  silent, Audible, EndsHeard, prefix_audio-Audible, window_loop-EndsHeard,
}
use ezviz_stream_bridge.Session.Reading.PrefixLoop.{prefix_loop-Keeps}
use ezviz_stream_bridge.Session.Reading.AudioWindow.{kept_of, window_loop-Keeps}

module _ (rtp_payload : Bytes → Option Bytes) where
  -- A plan of these packets, and of no audio yet.
  record IsBare (packets : List Bytes) (plan : PayloadPlan) : Type 0 where
    keeps : plan.packets ≡ packets
    no_audio : plan.audio_payload_type ≡ none

  named-IsBare :
      (serial : ℕ) (packets : List Bytes) (caches : Caches) (named : Option (Codec × Option ℕ))
      → IsBare packets (decide_named rtp_payload serial packets caches named).0
  named-IsBare serial packets caches (some (codec, pt)) = record { keeps = refl; no_audio = refl }
  named-IsBare serial packets caches none = go (lookup serial caches.rtp_sets)
    where
      go : (entry : Option OpenedWith) → IsBare packets (join_rtp rtp_payload entry packets)
      go none = record { keeps = refl; no_audio = refl }
      go (some cached) = record { keeps = refl; no_audio = refl }

  found-IsBare :
      (serial : ℕ) (packets : List Bytes) (caches : Caches) (found : Option ParameterSets)
      → IsBare packets (found_mpeg_ps serial packets caches found).0
  found-IsBare serial packets caches (some current) = record { keeps = refl; no_audio = refl }
  found-IsBare serial packets caches none = go (lookup serial caches.ps_sets)
    where
      go : (entry : Option ParameterSets) → IsBare packets (join_mpeg_ps entry packets)
      go none = record { keeps = refl; no_audio = refl }
      go (some cached) = record { keeps = refl; no_audio = refl }

  transport-IsBare :
      (serial : ℕ) (packets : List Bytes) (caches : Caches) (transport : Transport)
      → IsBare packets (decide_transport rtp_payload serial packets caches transport).0
  unfolding decide_mpeg_ps
  transport-IsBare serial packets caches mpeg_ps =
      found-IsBare serial packets caches (inspect_packets new_inspector none packets)
  transport-IsBare serial packets caches rtp =
      named-IsBare serial packets caches (named_codec rtp_payload packets)
  transport-IsBare serial packets caches mpeg_ts = record { keeps = refl; no_audio = refl }
  transport-IsBare serial packets caches unknown = record { keeps = refl; no_audio = refl }

  decide-IsBare :
      (serial : ℕ) (packets : List Bytes) (caches : Caches)
      → IsBare packets (decide rtp_payload serial packets caches).0
  unfolding decide
  decide-IsBare serial packets caches =
      transport-IsBare serial packets caches (transport_of packets)

  -- What holds when the read ends: of its failure, or of its plan and of what is still to be read.
  abbrev pub IsRead : List Bytes → Metrics → List Item → Ending PayloadPlan → Type 0
  IsRead before metrics items (fails metrics') = IsBroken items
  IsRead before metrics items (finishes plan metrics' rest) =
      IsKept before metrics items plan.packets metrics' rest
      × Audible rtp_payload plan.packets plan.payload_type plan.audio_payload_type

  IsRead-earlier :
      (before packets : List Bytes) (metrics metrics' : Metrics) (items rest : List Item)
      (ending : Ending PayloadPlan)
      → IsKept before metrics items packets metrics' rest
      → IsRead packets metrics' rest ending
      → IsRead before metrics items ending
  IsRead-earlier before packets metrics metrics' items rest (fails m) h h' = h.broken_before h'
  IsRead-earlier before packets metrics metrics' items rest (finishes plan m later) h
        (h', audible) =
      (
        record {
          same_bodies = h.same_bodies ∙ h'.same_bodies;
          same_count = h.same_count ∙ h'.same_count;
          still_calm = h'.still_calm;
          broken_before = λ broken. h.broken_before (h'.broken_before broken);
        },
        audible,
      )

  heard-IsRead :
      (plan : PayloadPlan) (before : List Bytes) (metrics : Metrics) (items : List Item)
      (ending : Ending Window)
      → Keeps (kept_of rtp_payload plan) before metrics items ending
      → EndsHeard rtp_payload plan ending
      → IsRead before metrics items (heard_plan rtp_payload plan ending)
  heard-IsRead plan before metrics items (fails m) h h' = h
  heard-IsRead plan before metrics items (finishes window m rest) h h' = (h, h')

  same_IsKept :
      (packets : List Bytes) (metrics : Metrics) (items : List Item)
      → All IsCalm items
      → IsKept packets metrics items packets metrics items
  same_IsKept packets metrics items calm = record {
    same_bodies = refl;
    same_count = refl;
    still_calm = calm;
    broken_before = λ broken. broken;
  }

  bare-IsRead :
      (plan : PayloadPlan) (items : List Item) (metrics : Metrics)
      → plan.audio_payload_type ≡ none
      → All IsCalm items
      → IsRead plan.packets metrics items (finishes plan metrics items)
  bare-IsRead plan items metrics bare calm = (
    same_IsKept plan.packets metrics items calm,
    subst (Audible rtp_payload plan.packets plan.payload_type) (sym bare) silent,
  )

  open_window-IsRead :
      (deadline : ℕ) (plan : PayloadPlan) (pt channels : Option ℕ) (items : List Item)
      (metrics : Metrics)
      → Audible rtp_payload plan.packets plan.payload_type pt
      → All IsCalm items
      → IsRead plan.packets metrics items
          (open_window rtp_payload deadline plan pt channels items metrics)
  open_window-IsRead deadline plan pt (some channels) items metrics audible calm =
      (same_IsKept plan.packets metrics items calm, audible)
  open_window-IsRead deadline plan pt none items metrics audible calm =
      let window : Window = record {
        extra = [];
        buffered = 0;
        heard_type = pt;
        heard_channels = none;
      } in
      let ending = window_loop rtp_payload plan deadline items window metrics in
      let e = append-nil plan.packets in
      heard-IsRead plan plan.packets metrics items ending
        (subst (λ t. Keeps (kept_of rtp_payload plan) t metrics items ending) e
          (window_loop-Keeps rtp_payload plan deadline items window metrics calm))
        (window_loop-EndsHeard rtp_payload plan deadline items window metrics
          (subst (λ t. Audible rtp_payload t plan.payload_type pt) (sym e) audible))

  with_audio-IsRead :
      (audio_window now : ℕ) (plan : PayloadPlan) (items : List Item) (metrics : Metrics)
      → plan.audio_payload_type ≡ none
      → All IsCalm items
      → IsRead plan.packets metrics items
          (with_audio rtp_payload audio_window now plan items metrics)
  unfolding with_audio
  with_audio-IsRead audio_window now plan items metrics bare calm = go (audio_window == 0)
    where
      go :
          (off : Bool)
          → IsRead plan.packets metrics items (
              if off
              then finishes plan metrics items
              else open_window rtp_payload
                  (now + audio_window)
                  plan
                  (prefix_audio rtp_payload plan.payload_type plan.packets)
                  (audio_channels rtp_payload
                    (prefix_audio rtp_payload plan.payload_type plan.packets)
                    plan.packets)
                  items
                  metrics)
      go true = bare-IsRead plan items metrics bare calm
      go false =
          let pt = prefix_audio rtp_payload plan.payload_type plan.packets in
          open_window-IsRead (now + audio_window) plan pt
            (audio_channels rtp_payload pt plan.packets) items metrics
            (prefix_audio-Audible rtp_payload plan.payload_type plan.packets) calm

  plan_audio-IsRead :
      (audio_window now : ℕ) (plan : PayloadPlan) (codec : Option Codec) (items : List Item)
      (metrics : Metrics)
      → plan.audio_payload_type ≡ none
      → All IsCalm items
      → IsRead plan.packets metrics items
          (plan_audio rtp_payload audio_window now plan codec items metrics)
  plan_audio-IsRead audio_window now plan none items metrics bare calm =
      bare-IsRead plan items metrics bare calm
  plan_audio-IsRead audio_window now plan (some codec) items metrics bare calm =
      with_audio-IsRead audio_window now plan items metrics bare calm

  plan_prefix-IsRead :
      (serial audio_window now : ℕ) (caches : Caches) (items : List Item) (metrics : Metrics)
      (ending : Ending (List Bytes))
      → Keeps (λ p. p) [] metrics items ending
      → IsRead [] metrics items
          (plan_prefix rtp_payload serial audio_window now false caches ending).0
  plan_prefix-IsRead serial audio_window now caches items metrics (fails m) h = h
  plan_prefix-IsRead serial audio_window now caches items metrics (finishes packets m rest) h =
      let plan = (decide rtp_payload serial packets caches).0 in
      let bare = decide-IsBare serial packets caches in
      let ending = plan_audio rtp_payload audio_window now plan plan.codec rest m in
      IsRead-earlier [] packets metrics m items rest ending h (
        subst (λ t. IsRead t m rest ending) bare.keeps
          (plan_audio-IsRead audio_window now plan plan.codec rest m bare.no_audio h.still_calm))

  -- When nothing cancels a session, reading its leading packets either fails, and then the stream has
  -- raised or has yielded an encrypted video packet, or ends with a plan. Then every video body that
  -- the stream yields is, in order, in the plan or still to be read, each video packet read was counted
  -- once, and a payload type that the plan names for the audio is that of a packet of the plan which
  -- is not of the video's type and reads as audio.
  pub read_prefix-IsRead :
      (serial audio_window now : ℕ) (caches : Caches) (items : List Item) (metrics : Metrics)
      → All IsCalm items
      → IsRead [] metrics items
          (read_prefix rtp_payload serial audio_window now false caches items metrics).0
  unfolding read_prefix
  read_prefix-IsRead serial audio_window now caches items metrics calm =
      plan_prefix-IsRead serial audio_window now caches items metrics
        (prefix_loop rtp_payload items [] metrics)
        (prefix_loop-Keeps rtp_payload items [] metrics calm)
