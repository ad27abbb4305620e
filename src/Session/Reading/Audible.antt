-- ===== src/Session/Reading/Audible.antt =====
-- About the audio that a session finds among its leading packets.
use ezviz_stream_bridge.Prelude.{
  ℕ, ◌≡◌, inl, inr, refl, ap, ◌∙◌, Bool, true, false, not, ◌&&◌, ◌||◌, Option, none, some, List, [],
  ◌∷◌, ◌++◌, Bytes, is_some, same_option, append_assoc, Bool-cases, if◌then◌else◌,
}
use mathlib.Core.Path.{subst}
use ezviz_stream_bridge.Session.Prefix.{payload_type_of, audio_payload, prefix_audio}
use ezviz_stream_bridge.Session.Plan.{PayloadPlan}
use ezviz_stream_bridge.Session.Reading.{
  Item, yields, raises, Ending, finishes, fails, caught, Window, hear, hear_type, window_closes,
  window_round, window_loop,
}
use ezviz_stream_bridge.Session.Accept.{
  Arrival, Metrics, Accepted, not_video, refused, accepted, accept,
}

module _ (rtp_payload : Bytes → Option Bytes) where
  -- What a session takes for the payload type of its audio: one that some packet it keeps has, that is
  -- not the video's, and whose payload in that packet reads as audio.
  pub data Audible (packets : List Bytes) (video : Option ℕ) : Option ℕ → Type 0 where
    silent : Audible packets video none
    heard :
        (before after : List Bytes) (body : Bytes)
        → packets ≡ before ++ (body ∷ after)
        → same_option (payload_type_of body) video ≡ false
        → audio_payload rtp_payload body ≡ true
        → Audible packets video (payload_type_of body)

  pub Audible-append :
      (packets more : List Bytes) (video pt : Option ℕ)
      → Audible packets video pt
      → Audible (packets ++ more) video pt
  Audible-append packets more video pt silent = silent
  Audible-append packets more video pt (heard before after body e other audio) =
      heard before (after ++ more) body
        (ap (λ t. t ++ more) e ∙ append_assoc before (body ∷ after) more) other audio

  Audible-cons :
      (body : Bytes) (packets : List Bytes) (video pt : Option ℕ)
      → Audible packets video pt
      → Audible (body ∷ packets) video pt
  Audible-cons body packets video pt silent = silent
  Audible-cons body packets video pt (heard before after body' e other audio) =
      heard (body ∷ before) after body' (ap (λ t. body ∷ t) e) other audio

  and_not : (a b : Bool) → (not a && b) ≡ true → (a ≡ false) × (b ≡ true)
  and_not true b e = cc
  and_not false b e = (refl, e)

  -- A packet that is heard, or not.
  hears :
      (before after : List Bytes) (body : Bytes) (video otherwise : Option ℕ)
      → Audible (before ++ (body ∷ after)) video otherwise
      → Audible (before ++ (body ∷ after)) video (
          if not (same_option (payload_type_of body) video) && audio_payload rtp_payload body
          then payload_type_of body
          else otherwise)
  hears before after body video otherwise h =
      elim (Bool-cases
        (not (same_option (payload_type_of body) video) && audio_payload rtp_payload body)) [
          | inl e ↦
              let (other, audio) =
                and_not (same_option (payload_type_of body) video) (audio_payload rtp_payload body)
                  e in
              rw e (heard before after body refl other audio)
          | inr e ↦ rw e h
        ]

  pub prefix_audio-Audible :
      (video : Option ℕ) (packets : List Bytes)
      → Audible packets video (prefix_audio rtp_payload video packets)
  unfolding prefix_audio
  prefix_audio-Audible video [] = silent
  prefix_audio-Audible video (body ∷ packets) =
      hears [] packets body video (prefix_audio rtp_payload video packets) (
        Audible-cons body packets video (prefix_audio rtp_payload video packets)
          (prefix_audio-Audible video packets))

  -- What the window has heard is audible among the packets so far.
  abbrev pub IsHeard : PayloadPlan → Window → Type 0
  IsHeard plan window = Audible (plan.packets ++ window.extra) plan.payload_type window.heard_type

  abbrev pub EndsHeard : PayloadPlan → Ending Window → Type 0
  EndsHeard plan (fails metrics) = Unit {0}
  EndsHeard plan (finishes window metrics items) = IsHeard plan window

  caught-EndsHeard :
      (plan : PayloadPlan) (b : Bool) (window : Window) (metrics : Metrics) (items : List Item)
      → IsHeard plan window
      → EndsHeard plan (caught b window metrics items)
  caught-EndsHeard plan true window metrics items h = h
  caught-EndsHeard plan false window metrics items h = tt

  hear-IsHeard :
      (plan : PayloadPlan) (window : Window) (body : Bytes)
      → IsHeard plan window
      → IsHeard plan (hear rtp_payload plan window body)
  hear-IsHeard plan window body h =
      subst (λ t. Audible t plan.payload_type (hear_type rtp_payload plan body window.heard_type))
        (append_assoc plan.packets window.extra (body ∷ [])) (go window.heard_type h)
    where
      go :
          (pt : Option ℕ)
          → Audible (plan.packets ++ window.extra) plan.payload_type pt
          → Audible
              ((plan.packets ++ window.extra) ++ (body ∷ []))
              plan.payload_type
              (hear_type rtp_payload plan body pt)
      go (some pt) h =
          Audible-append (plan.packets ++ window.extra) (body ∷ []) plan.payload_type (some pt) h
      go none h = hears (plan.packets ++ window.extra) [] body plan.payload_type none silent

  -- What holds however the check at the end of a round comes out.
  on_both : {A : Type 0} (P : A → Type 0) (b : Bool) (x y : A) → P x → P y → P (if b then x else y)
  on_both P true x y p q = p
  on_both P false x y p q = q

  round-EndsHeard :
      (plan : PayloadPlan) (deadline : ℕ) (a : Arrival) (items : List Item)
      (again : Window → Metrics → Ending Window) (window : Window) (metrics : Metrics)
      (o : Accepted)
      → IsHeard plan window
      → ((window' : Window) (metrics' : Metrics)
          → IsHeard plan window'
          → EndsHeard plan (again window' metrics'))
      → EndsHeard plan (window_round rtp_payload plan deadline a items again window metrics o)
  round-EndsHeard plan deadline a items again window metrics refused h later =
      caught-EndsHeard plan a.cancelled_after window metrics items h
  round-EndsHeard plan deadline a items again window metrics not_video h later =
      on_both (EndsHeard plan) (window_closes rtp_payload deadline a window)
        (finishes window metrics items) (again window metrics) h (later window metrics h)
  round-EndsHeard plan deadline a items again window metrics (accepted [] metrics') h later =
      on_both (EndsHeard plan) (window_closes rtp_payload deadline a window)
        (finishes window metrics' items) (again window metrics') h (later window metrics' h)
  round-EndsHeard plan deadline a items again window metrics (accepted (b ∷ rest) metrics') h
        later =
      let window' = hear rtp_payload plan window (b ∷ rest) in
      let h' = hear-IsHeard plan window (b ∷ rest) h in
      on_both (EndsHeard plan)
        (is_some window'.heard_channels || window_closes rtp_payload deadline a window')
        (finishes window' metrics' items) (again window' metrics') h' (later window' metrics' h')

  pub window_loop-EndsHeard :
      (plan : PayloadPlan) (deadline : ℕ) (items : List Item) (window : Window) (metrics : Metrics)
      → IsHeard plan window
      → EndsHeard plan (window_loop rtp_payload plan deadline items window metrics)
  unfolding window_loop
  window_loop-EndsHeard plan deadline [] window metrics h = h
  window_loop-EndsHeard plan deadline (raises cancelled ∷ items) window metrics h =
      caught-EndsHeard plan cancelled window metrics items h
  window_loop-EndsHeard plan deadline (yields a ∷ items) window metrics h =
      let again : Window → Metrics → Ending Window =
        λ window' metrics'. window_loop rtp_payload plan deadline items window' metrics' in
      on_both (EndsHeard plan) a.cancelled (finishes window metrics items)
        (window_round rtp_payload plan deadline a items again window metrics
          (accept rtp_payload a metrics))
        h
        (round-EndsHeard plan deadline a items again window metrics (accept rtp_payload a metrics) h
          (λ window' metrics' h'. window_loop-EndsHeard plan deadline items window' metrics' h'))
