-- ===== src/Session/Reading/PrefixLoop.antt =====
-- About the loop of `_read_prefix`: what it reads it keeps.
use ezviz_stream_bridge.Prelude.{
  ◌≡◌, inl, inr, refl, sym, Bool, true, false, Option, List, [], ◌∷◌, Bytes, All, length, leb,
  if◌then◌else◌,
}
use mathlib.Core.Path.{subst}
use ezviz_stream_bridge.Session.Reading.{
  prefix_packets, Item, yields, raises, Ending, finishes, caught, append_some, prefix_round,
  prefix_loop,
}
use ezviz_stream_bridge.Session.Accept.{Arrival, Metrics, Accepted, accepted, count_video, accept}
use ezviz_stream_bridge.Session.Reading.Kept.{
  IsCalm, Keeps, at_raise, at_locked, on_false, accept_case, past_other, past_video,
}

module _ (rtp_payload : Bytes → Option Bytes) where
  prefix_more :
      (a : Arrival) (items : List Item) (again : List Bytes → Metrics → Ending (List Bytes))
      (packets : List Bytes) (metrics : Metrics)
      → All IsCalm items
      → ((packets' : List Bytes) (metrics' : Metrics)
          → Keeps (λ p. p) packets' metrics' items (again packets' metrics'))
      → Keeps
          (λ p. p)
          packets
          metrics
          items
          (if leb prefix_packets (length packets)
            then finishes packets metrics items
            else again packets metrics)
  prefix_more a items again packets metrics rest h = go (leb prefix_packets (length packets))
    where
      go :
          (b : Bool)
          → Keeps
              (λ p. p)
              packets
              metrics
              items
              (if b then finishes packets metrics items else again packets metrics)
      go true = record {
        same_bodies = refl;
        same_count = refl;
        still_calm = rest;
        broken_before = λ broken. broken;
      }
      go false = h packets metrics

  prefix_round-Keeps :
      (a : Arrival) (items : List Item) (again : List Bytes → Metrics → Ending (List Bytes))
      (packets : List Bytes) (metrics : Metrics)
      → a.cancelled_after ≡ false
      → All IsCalm items
      → ((packets' : List Bytes) (metrics' : Metrics)
          → Keeps (λ p. p) packets' metrics' items (again packets' metrics'))
      → Keeps
          (λ p. p)
          packets
          metrics
          (yields a ∷ items)
          (prefix_round rtp_payload a items again packets metrics (accept rtp_payload a metrics))
  prefix_round-Keeps a items again packets metrics calm rest h =
      let P : Accepted → Type 0 = λ o.
        Keeps (λ p. p) packets metrics (yields a ∷ items)
          (prefix_round rtp_payload a items again packets metrics o) in
      elim (accept_case rtp_payload a metrics) [
        | inl (e, other) ↦ subst P (sym e) (
            past_other rtp_payload (λ p. p) a items packets metrics (again packets metrics) other
              (h packets metrics))
        | inr (inl (e, (stream, locked))) ↦ subst P (sym e) (
            subst
              (λ b.
                Keeps (λ p. p) packets metrics (yields a ∷ items) (caught b packets metrics items))
              (sym calm) (at_locked a items stream locked))
        | inr (inr (e, stream)) ↦ subst P (sym e) (
            past_video rtp_payload (λ p. p) a items packets metrics
              (prefix_round rtp_payload a items again packets metrics
                (accepted a.body (count_video rtp_payload a metrics)))
              stream
              (prefix_more a items again (append_some packets a.body)
                (count_video rtp_payload a metrics) rest h))
      ]

  pub prefix_loop-Keeps :
      (items : List Item) (packets : List Bytes) (metrics : Metrics)
      → All IsCalm items
      → Keeps (λ p. p) packets metrics items (prefix_loop rtp_payload items packets metrics)
  unfolding prefix_loop
  prefix_loop-Keeps [] packets metrics calm = record {
    same_bodies = refl;
    same_count = refl;
    still_calm = tt;
    broken_before = λ broken. broken;
  }
  prefix_loop-Keeps (raises cancelled ∷ items) packets metrics (calm, rest) =
      subst
        (λ b.
          Keeps (λ p. p) packets metrics (raises cancelled ∷ items)
            (caught b packets metrics items))
        (sym calm) (at_raise cancelled items)
  prefix_loop-Keeps (yields a ∷ items) packets metrics ((calm, calm_after), rest) =
      on_false (Keeps (λ p. p) packets metrics (yields a ∷ items)) a.cancelled _ _ calm (
        prefix_round-Keeps a items
          (λ packets' metrics'. prefix_loop rtp_payload items packets' metrics') packets metrics
          calm_after rest (λ packets' metrics'. prefix_loop-Keeps items packets' metrics' rest))
