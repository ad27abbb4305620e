-- ===== src/Session/Accept.antt =====
-- ezviz_stream_bridge/session.py, lines 541 to 554 and 1343 to 1375: one packet of the stream.
use ezviz_stream_bridge.Prelude.{
  ℕ, ◌+◌, Bool, not, Option, none, some, List, [], ◌∷◌, Bytes, same_option, if◌then◌else◌,
}
use ezviz_stream_bridge.Session.Prefix.{payload_type_of, carries_media}

-- A packet that the iterator yields, and what is read while it is handled: the cancel flag before it,
-- the times since the session's start in `_accept` and in `_record`, the clock at the check of the
-- deadline, and the flag again where `_accept` raises.
pub record Arrival : Type 0 where
  pub cancelled : Bool
  pub is_stream : Bool
  pub encrypted : Bool
  pub body : Bytes
  pub elapsed : ℕ
  pub recorded : ℕ
  pub now : ℕ
  pub cancelled_after : Bool

-- `_MediaSpan`
pub record MediaSpan : Type 0 where
  pub first : ℕ
  pub last : ℕ
  pub span_packets : ℕ

-- What `_accept` changes: the session's metrics, and the dict `_media` by payload type.
pub record Metrics : Type 0 where
  pub first_video_at : Option ℕ
  pub video_packets : ℕ
  pub media : List (Option ℕ × MediaSpan)

abbrev pub new_metrics : Metrics
new_metrics = record { first_video_at = none; video_packets = 0; media = [] }

-- The end of `_accept`, on the dict of spans.
unfoldable pub note_media : List (Option ℕ × MediaSpan) → Option ℕ → ℕ → List (Option ℕ × MediaSpan)
note_media [] pt elapsed = (pt, record { first = elapsed; last = elapsed; span_packets = 1 }) ∷ []
note_media ((key, span) ∷ media) pt elapsed =
    let rest = note_media media pt elapsed in
    if same_option key pt
    then (key, record span { last = elapsed; span_packets = span.span_packets + 1 }) ∷ media
    else (key, span) ∷ rest

-- `self.metrics.first_video_at` after a packet with media.
abbrev pub first_video : Option ℕ → ℕ → Option ℕ
first_video none recorded = some recorded
first_video (some time) recorded = some time

-- How `_accept` ends: with `None`, with the `PyEzvizError` of an encrypted packet, or with a body.
pub data Accepted : Type 0 where
  not_video refused : Accepted
  accepted : Bytes → Metrics → Accepted

module _ (rtp_payload : Bytes → Option Bytes) where
  -- What `_accept` counts.
  unfoldable pub count_video : Arrival → Metrics → Metrics
  count_video a metrics =
      let counted = record metrics { video_packets = metrics.video_packets + 1 } in
      if carries_media rtp_payload a.body
      then record counted {
        first_video_at = first_video metrics.first_video_at a.recorded;
        media = note_media metrics.media (payload_type_of a.body) a.elapsed;
      }
      else counted

  -- `_accept`
  unfoldable pub accept : Arrival → Metrics → Accepted
  accept a metrics =
      if not a.is_stream
      then not_video
      else if a.encrypted
      then refused
      else accepted a.body (count_video a metrics)
