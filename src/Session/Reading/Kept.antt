-- ===== src/Session/Reading/Kept.antt =====
-- About the leading packets: what is read of the stream is what the plan keeps.
use ezviz_stream_bridge.Prelude.{
  ℕ, ◌+◌, ◌≡◌, ◌⊎◌, inl, inr, refl, sym, ap, ◌∙◌, Bool, true, false, Option, List, [], ◌∷◌, ◌++◌,
  Bytes, All, arith, append_assoc, Bool-cases, if◌then◌else◌,
}
use ezviz_stream_bridge.Session.Prefix.{carries_media}
use ezviz_stream_bridge.Session.Reading.{Item, yields, raises, Ending, finishes, fails, append_some}
use ezviz_stream_bridge.Session.Accept.{
  Arrival, Metrics, not_video, refused, accepted, count_video, accept,
}

-- Nothing cancels the session while this is handled.
abbrev pub IsCalm : Item → Type 0
IsCalm (yields a) = (a.cancelled ≡ false) × (a.cancelled_after ≡ false)
IsCalm (raises cancelled) = cancelled ≡ false

-- The bodies of the video packets that a stream yields, without the empty ones.
abbrev pub body_of : Arrival → List Bytes
body_of a = if a.is_stream then append_some [] a.body else []

abbrev pub bodies : List Item → List Bytes
bodies [] = []
bodies (raises cancelled ∷ items) = bodies items
bodies (yields a ∷ items) = body_of a ++ bodies items

-- How many video packets it yields.
abbrev pub stream_packets : List Item → ℕ
stream_packets [] = 0
stream_packets (raises cancelled ∷ items) = stream_packets items
stream_packets (yields a ∷ items) = (if a.is_stream then 1 else 0) + stream_packets items

-- Somewhere the stream raises, or yields a video packet that is encrypted.
pub data IsBroken : List Item → Type 0 where
  at_raise : (cancelled : Bool) (items : List Item) → IsBroken (raises cancelled ∷ items)
  at_locked :
      (a : Arrival) (items : List Item)
      → a.is_stream ≡ true
      → a.encrypted ≡ true
      → IsBroken (yields a ∷ items)
  behind : (item : Item) (items : List Item) → IsBroken items → IsBroken (item ∷ items)

-- What was kept before and is still to come is what is kept after and still to come, and each video
-- packet was counted once.
pub record IsKept (before : List Bytes) (metrics : Metrics) (items : List Item) (after : List Bytes)
    (metrics' : Metrics) (rest : List Item) : Type 0 where
  pub same_bodies : before ++ bodies items ≡ after ++ bodies rest
  pub same_count :
      metrics.video_packets + stream_packets items ≡ metrics'.video_packets + stream_packets rest
  pub still_calm : All IsCalm rest
  pub broken_before : IsBroken rest → IsBroken items

-- The same of a loop that finishes, with what it keeps as packets.
abbrev pub Keeps :
    {A : Type 0} → (A → List Bytes) → List Bytes → Metrics → List Item → Ending A → Type 0
Keeps kept_of before metrics items (fails metrics') = IsBroken items
Keeps kept_of before metrics items (finishes kept metrics' rest) =
    IsKept before metrics items (kept_of kept) metrics' rest

Keeps-earlier :
    {A : Type 0} (kept_of : A → List Bytes) (before before' : List Bytes)
    (metrics metrics' : Metrics) (items items' : List Item) (ending : Ending A)
    → before ++ bodies items ≡ before' ++ bodies items'
    → metrics.video_packets + stream_packets items ≡ metrics'.video_packets + stream_packets items'
    → (IsBroken items' → IsBroken items)
    → Keeps kept_of before' metrics' items' ending
    → Keeps kept_of before metrics items ending
Keeps-earlier kept_of before before' metrics metrics' items items' (fails m) e c b h = b h
Keeps-earlier kept_of before before' metrics metrics' items items' (finishes kept m rest) e c b h =
    record {
      same_bodies = e ∙ h.same_bodies;
      same_count = c ∙ h.same_count;
      still_calm = h.still_calm;
      broken_before = λ broken. b (h.broken_before broken);
    }

pub on_false :
    {A : Type 0} (P : A → Type 0) (b : Bool) (x y : A) → b ≡ false → P y → P (if b then x else y)
on_false P true x y e p = cc
on_false P false x y e p = p

append_some-append :
    (packets : List Bytes) (body : Bytes) (rest : List Bytes)
    → append_some packets body ++ rest ≡ packets ++ (append_some [] body ++ rest)
append_some-append packets [] rest = refl
append_some-append packets (b ∷ body) rest = append_assoc packets ((b ∷ body) ∷ []) rest

module _ (rtp_payload : Bytes → Option Bytes) where
  count_video-video_packets :
      (a : Arrival) (metrics : Metrics)
      → (count_video rtp_payload a metrics).video_packets ≡ metrics.video_packets + 1
  unfolding count_video
  count_video-video_packets a metrics = elim (Bool-cases (carries_media rtp_payload a.body)) [
    | inl media ↦ rw media refl
    | inr no_media ↦ rw no_media refl
  ]

  -- The ways that `_accept` ends, as `Round again` on what it returns.
  pub accept_case :
      (a : Arrival) (metrics : Metrics)
      → ((accept rtp_payload a metrics ≡ not_video) × (a.is_stream ≡ false))
        ⊎ (((accept rtp_payload a metrics ≡ refused)
              × ((a.is_stream ≡ true) × (a.encrypted ≡ true)))
            ⊎ ((accept rtp_payload a metrics ≡ accepted a.body (count_video rtp_payload a metrics))
                × (a.is_stream ≡ true)))
  unfolding accept
  accept_case a metrics = elim (Bool-cases a.is_stream) [
    | inr other ↦ inl (rw other refl, other)
    | inl stream ↦ elim (Bool-cases a.encrypted) [
      | inl locked ↦ inr (inl (rw stream (rw locked refl), (stream, locked)))
      | inr clear ↦ inr (inr (rw stream (rw clear refl), stream))
    ]
  ]

  -- What holds before a packet, from what holds behind it.
  pub past_other :
      {A : Type 0} (kept_of : A → List Bytes) (a : Arrival) (items : List Item)
      (packets : List Bytes) (metrics : Metrics) (ending : Ending A)
      → a.is_stream ≡ false
      → Keeps kept_of packets metrics items ending
      → Keeps kept_of packets metrics (yields a ∷ items) ending
  past_other kept_of a items packets metrics ending other =
      Keeps-earlier kept_of packets packets metrics metrics (yields a ∷ items) items ending
        (ap (λ b. packets ++ ((if b then append_some [] a.body else []) ++ bodies items)) other)
        (ap (λ b. metrics.video_packets + ((if b then 1 else 0) + stream_packets items)) other
          ∙ omega arith)
        (behind (yields a) items)

  pub past_video :
      {A : Type 0} (kept_of : A → List Bytes) (a : Arrival) (items : List Item)
      (packets : List Bytes) (metrics : Metrics) (ending : Ending A)
      → a.is_stream ≡ true
      → Keeps kept_of (append_some packets a.body) (count_video rtp_payload a metrics) items ending
      → Keeps kept_of packets metrics (yields a ∷ items) ending
  past_video kept_of a items packets metrics ending stream =
      let counts = count_video-video_packets a metrics in
      Keeps-earlier kept_of packets (append_some packets a.body) metrics
        (count_video rtp_payload a metrics) (yields a ∷ items) items ending
        (ap (λ b. packets ++ ((if b then append_some [] a.body else []) ++ bodies items)) stream
          ∙ sym (append_some-append packets a.body (bodies items)))
        (ap (λ b. metrics.video_packets + ((if b then 1 else 0) + stream_packets items)) stream
          ∙ omega (arith, counts))
        (behind (yields a) items)
