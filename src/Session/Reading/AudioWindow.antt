-- ===== src/Session/Reading/AudioWindow.antt =====
-- About the audio window: what it reads it keeps.
use ezviz_stream_bridge.Prelude.{
  ℕ, ◌≡◌, inl, inr, refl, sym, Bool, true, false, ◌||◌, Option, List, [], ◌∷◌, ◌++◌, Bytes, All,
  is_some, append_assoc, if◌then◌else◌,
}
use mathlib.Core.Path.{subst}
use ezviz_stream_bridge.Session.Plan.{PayloadPlan}
use ezviz_stream_bridge.Session.Reading.{
  Item, yields, raises, Ending, finishes, caught, append_some, Window, hear, window_closes,
  window_round, window_loop,
}
use ezviz_stream_bridge.Session.Accept.{
  Arrival, Metrics, Accepted, not_video, accepted, count_video, accept,
}
use ezviz_stream_bridge.Session.Reading.Kept.{
  at_locked, at_raise, IsCalm, Keeps, on_false, accept_case, past_other, past_video,
}

module _ (rtp_payload : Bytes → Option Bytes) where
  -- The packets that the plan will have.
  abbrev pub kept_of : PayloadPlan → Window → List Bytes
  kept_of plan window = plan.packets ++ window.extra

  -- A round that stops with what it keeps, or goes on with that.
  stops_or_goes_on :
      (plan : PayloadPlan) (items : List Item) (again : Window → Metrics → Ending Window) (b : Bool)
      (window : Window) (metrics : Metrics)
      → All IsCalm items
      → ((window' : Window) (metrics' : Metrics)
          → Keeps (kept_of plan) (kept_of plan window') metrics' items (again window' metrics'))
      → Keeps
          (kept_of plan)
          (kept_of plan window)
          metrics
          items
          (if b then finishes window metrics items else again window metrics)
  stops_or_goes_on plan items again true window metrics calm later = record {
    same_bodies = refl;
    same_count = refl;
    still_calm = calm;
    broken_before = λ broken. broken;
  }
  stops_or_goes_on plan items again false window metrics calm later = later window metrics

  body-Keeps :
      (plan : PayloadPlan) (deadline : ℕ) (a : Arrival) (items : List Item)
      (again : Window → Metrics → Ending Window) (window : Window) (metrics metrics' : Metrics)
      (body : Bytes)
      → All IsCalm items
      → ((window' : Window) (metrics'' : Metrics)
          → Keeps (kept_of plan) (kept_of plan window') metrics'' items (again window' metrics''))
      → Keeps (kept_of plan) (append_some (kept_of plan window) body) metrics' items (
          window_round rtp_payload plan deadline a items again window metrics
            (accepted body metrics'))
  body-Keeps plan deadline a items again window metrics metrics' [] calm later =
      stops_or_goes_on plan items again (window_closes rtp_payload deadline a window) window
        metrics' calm later
  body-Keeps plan deadline a items again window metrics metrics' (b ∷ rest) calm later =
      let window' = hear rtp_payload plan window (b ∷ rest) in
      let closes = is_some window'.heard_channels || window_closes rtp_payload deadline a window' in
      subst
        (λ t.
          Keeps (kept_of plan) t metrics' items
            (if closes then finishes window' metrics' items else again window' metrics'))
        (sym (append_assoc plan.packets window.extra ((b ∷ rest) ∷ [])))
        (stops_or_goes_on plan items again closes window' metrics' calm later)

  round-Keeps :
      (plan : PayloadPlan) (deadline : ℕ) (a : Arrival) (items : List Item)
      (again : Window → Metrics → Ending Window) (window : Window) (metrics : Metrics)
      → a.cancelled_after ≡ false
      → All IsCalm items
      → ((window' : Window) (metrics' : Metrics)
          → Keeps (kept_of plan) (kept_of plan window') metrics' items (again window' metrics'))
      → Keeps (kept_of plan) (kept_of plan window) metrics (yields a ∷ items) (
          window_round rtp_payload plan deadline a items again window metrics
            (accept rtp_payload a metrics))
  round-Keeps plan deadline a items again window metrics calm rest later =
      let round = window_round rtp_payload plan deadline a items again window metrics in
      let P : Accepted → Type 0 =
        λ o. Keeps (kept_of plan) (kept_of plan window) metrics (yields a ∷ items) (round o) in
      let counted = count_video rtp_payload a metrics in
      elim (accept_case rtp_payload a metrics) [
        | inl (e, other) ↦ subst P (sym e) (
            past_other rtp_payload (kept_of plan) a items (kept_of plan window) metrics
              (round not_video) other
              (stops_or_goes_on plan items again (window_closes rtp_payload deadline a window)
                window metrics rest later))
        | inr (inl (e, (stream, locked))) ↦ subst P (sym e) (
            subst
              (λ b.
                Keeps (kept_of plan) (kept_of plan window) metrics (yields a ∷ items)
                  (caught b window metrics items))
              (sym calm) (at_locked a items stream locked))
        | inr (inr (e, stream)) ↦ subst P (sym e) (
            past_video rtp_payload (kept_of plan) a items (kept_of plan window) metrics
              (round (accepted a.body counted)) stream
              (body-Keeps plan deadline a items again window metrics counted a.body rest later))
      ]

  pub window_loop-Keeps :
      (plan : PayloadPlan) (deadline : ℕ) (items : List Item) (window : Window) (metrics : Metrics)
      → All IsCalm items
      → Keeps
          (kept_of plan)
          (kept_of plan window)
          metrics
          items
          (window_loop rtp_payload plan deadline items window metrics)
  unfolding window_loop
  window_loop-Keeps plan deadline [] window metrics calm = record {
    same_bodies = refl;
    same_count = refl;
    still_calm = tt;
    broken_before = λ broken. broken;
  }
  window_loop-Keeps plan deadline (raises cancelled ∷ items) window metrics (calm, rest) =
      subst
        (λ b.
          Keeps (kept_of plan) (kept_of plan window) metrics (raises cancelled ∷ items)
            (caught b window metrics items))
        (sym calm) (at_raise cancelled items)
  window_loop-Keeps plan deadline (yields a ∷ items) window metrics ((calm, calm_after), rest) =
      on_false (Keeps (kept_of plan) (kept_of plan window) metrics (yields a ∷ items)) a.cancelled _
        _ calm
        (round-Keeps plan deadline a items
          (λ window' metrics'. window_loop rtp_payload plan deadline items window' metrics') window
          metrics calm_after rest
          (λ window' metrics'. window_loop-Keeps plan deadline items window' metrics' rest))
