-- ===== src/Session/Reading.antt =====
-- ezviz_stream_bridge/session.py, lines 1057 to 1205: reading the leading packets
-- of a session. What the stream, the clock and the cancel flag answer is an argument.
pub mod Kept
pub mod PrefixLoop
pub mod Audible
pub mod AudioWindow
pub mod Whole
use ezviz_stream_bridge.Prelude.{
  ℕ, ◌+◌, ◌*◌, Bool, true, false, not, ◌&&◌, ◌||◌, Option, none, some, List, [], ◌∷◌, ◌++◌, Bytes,
  length, leb, ◌==◌, same_option, is_some, if◌then◌else◌,
}
use ezviz_stream_bridge.Rtp.Constants.{Codec}
use ezviz_stream_bridge.Session.Accept.{
  Arrival, MediaSpan, Metrics, new_metrics, note_media, Accepted, not_video, refused, accepted,
  count_video, accept,
}
use ezviz_stream_bridge.Session.Prefix.{
  Transport, unknown, payload_type_of, audio_payload, prefix_audio, audio_channels, carries_media,
  some_bytes,
}
use ezviz_stream_bridge.Session.Plan.{PayloadPlan, Caches, plain_plan, decide}

abbrev pub prefix_packets : ℕ
prefix_packets = 8

abbrev pub audio_window_bytes : ℕ
audio_window_bytes = 4 * 1024 * 1024

-- What the iterator does: it yields a packet, or raises with the cancel flag so.
pub data Item : Type 0 where
  yields : Arrival → Item
  raises : Bool → Item

-- How a loop ends: it stops with what it keeps, or its exception is raised again.
pub data Ending (A : Type 0) : Type 0 where
  finishes : A → Metrics → List Item → Ending A
  fails : Metrics → Ending A

-- The `except` of the loops.
abbrev pub caught : {A : Type 0} → Bool → A → Metrics → List Item → Ending A
caught true kept metrics items = finishes kept metrics items
caught false kept metrics items = fails metrics

-- `if body: packets.append(body)`
abbrev pub append_some : List Bytes → Bytes → List Bytes
append_some packets [] = packets
append_some packets (b ∷ rest) = packets ++ ((b ∷ rest) ∷ [])

-- What the window has heard.
pub record Window : Type 0 where
  pub extra : List Bytes
  pub buffered : ℕ
  pub heard_type : Option ℕ
  pub heard_channels : Option ℕ

module _ (rtp_payload : Bytes → Option Bytes) where
  -- One round of the loop of `_read_prefix`, after `_accept`.
  abbrev pub prefix_round :
      Arrival
      → List Item
      → (List Bytes → Metrics → Ending (List Bytes))
      → List Bytes
      → Metrics
      → Accepted
      → Ending (List Bytes)
  prefix_round a items again packets metrics not_video = again packets metrics
  prefix_round a items again packets metrics refused =
      caught a.cancelled_after packets metrics items
  prefix_round a items again packets metrics (accepted body metrics') =
      let packets' = append_some packets body in
      if leb prefix_packets (length packets')
      then finishes packets' metrics' items
      else again packets' metrics'

  -- The loop of `_read_prefix`.
  unfoldable pub prefix_loop : List Item → List Bytes → Metrics → Ending (List Bytes)
  prefix_loop [] packets metrics = finishes packets metrics []
  prefix_loop (raises cancelled ∷ items) packets metrics = caught cancelled packets metrics items
  prefix_loop (yields a ∷ items) packets metrics =
      let round =
        prefix_round a items (λ packets' metrics'. prefix_loop items packets' metrics') packets
          metrics (accept rtp_payload a metrics) in
      if a.cancelled then finishes packets metrics items else round

  -- `audio_payload_type` after one more body.
  abbrev pub hear_type : PayloadPlan → Bytes → Option ℕ → Option ℕ
  hear_type plan body (some pt) = some pt
  hear_type plan body none =
      if not (same_option (payload_type_of body) plan.payload_type)
        && audio_payload rtp_payload body
      then payload_type_of body
      else none

  -- `channels` likewise.
  abbrev pub hear_channels : PayloadPlan → Option ℕ → List Bytes → Option ℕ → Option ℕ
  hear_channels plan pt extra (some channels) = some channels
  hear_channels plan pt extra none = audio_channels rtp_payload pt (plan.packets ++ extra)

  -- What a body that is not empty changes in the window.
  abbrev pub hear : PayloadPlan → Window → Bytes → Window
  hear plan window body =
      let pt = hear_type plan body window.heard_type in
      let extra = window.extra ++ (body ∷ []) in
      record {
        extra = extra;
        buffered = window.buffered + length body;
        heard_type = pt;
        heard_channels = hear_channels plan pt extra window.heard_channels;
      }

  -- The check of the deadline and of the buffer.
  abbrev pub window_closes : ℕ → Arrival → Window → Bool
  window_closes deadline a window = leb deadline a.now || leb audio_window_bytes window.buffered

  -- One round of the loop of `_with_audio`, after `_accept`.
  abbrev pub window_round :
      PayloadPlan
      → ℕ
      → Arrival
      → List Item
      → (Window → Metrics → Ending Window)
      → Window
      → Metrics
      → Accepted
      → Ending Window
  window_round plan deadline a items again window metrics refused =
      caught a.cancelled_after window metrics items
  window_round plan deadline a items again window metrics not_video =
      if window_closes deadline a window
      then finishes window metrics items
      else again window metrics
  window_round plan deadline a items again window metrics (accepted [] metrics') =
      if window_closes deadline a window
      then finishes window metrics' items
      else again window metrics'
  window_round plan deadline a items again window metrics (accepted (b ∷ rest) metrics') =
      let window' = hear plan window (b ∷ rest) in
      if is_some window'.heard_channels || window_closes deadline a window'
      then finishes window' metrics' items
      else again window' metrics'

  -- The loop of `_with_audio`.
  unfoldable pub window_loop : PayloadPlan → ℕ → List Item → Window → Metrics → Ending Window
  window_loop plan deadline [] window metrics = finishes window metrics []
  window_loop plan deadline (raises cancelled ∷ items) window metrics =
      caught cancelled window metrics items
  window_loop plan deadline (yields a ∷ items) window metrics =
      let round =
        window_round plan deadline a items
          (λ window' metrics'. window_loop plan deadline items window' metrics') window metrics
          (accept rtp_payload a metrics) in
      if a.cancelled then finishes window metrics items else round

  -- The `replace` at the end of `_with_audio`.
  abbrev pub heard_plan : PayloadPlan → Ending Window → Ending PayloadPlan
  heard_plan plan (fails metrics) = fails metrics
  heard_plan plan (finishes window metrics items) =
      finishes
        (record plan {
          packets = plan.packets ++ window.extra;
          audio_payload_type = window.heard_type;
          audio_channels = window.heard_channels;
        })
        metrics items

  -- `_with_audio`, from the channels of the prefix on.
  abbrev pub open_window :
      ℕ → PayloadPlan → Option ℕ → Option ℕ → List Item → Metrics → Ending PayloadPlan
  open_window deadline plan pt (some channels) items metrics =
      finishes (record plan { audio_payload_type = pt; audio_channels = some channels }) metrics
        items
  open_window deadline plan pt none items metrics = heard_plan plan (
      window_loop plan deadline items
        (record { extra = []; buffered = 0; heard_type = pt; heard_channels = none }) metrics)

  -- `_with_audio`; `now` is the clock when the window opens, and a window of 0 is none.
  unfoldable pub with_audio : ℕ → ℕ → PayloadPlan → List Item → Metrics → Ending PayloadPlan
  with_audio audio_window now plan items metrics =
      let pt = prefix_audio rtp_payload plan.payload_type plan.packets in
      let channels = audio_channels rtp_payload pt plan.packets in
      if audio_window == 0
      then finishes plan metrics items
      else open_window (now + audio_window) plan pt channels items metrics

  -- The end of `_read_prefix`; only a payload that the session depacketizes has an audio window.
  abbrev pub plan_audio :
      ℕ → ℕ → PayloadPlan → Option Codec → List Item → Metrics → Ending PayloadPlan
  plan_audio audio_window now plan none items metrics = finishes plan metrics items
  plan_audio audio_window now plan (some codec) items metrics =
      with_audio audio_window now plan items metrics

  -- `_read_prefix` from the end of its loop on; `cancelled` is the flag there.
  abbrev pub plan_prefix :
      ℕ → ℕ → ℕ → Bool → Caches → Ending (List Bytes) → Ending PayloadPlan × Caches
  plan_prefix serial audio_window now cancelled caches (fails metrics) = (fails metrics, caches)
  plan_prefix serial audio_window now true caches (finishes packets metrics items) =
      (finishes (plain_plan unknown packets) metrics items, caches)
  plan_prefix serial audio_window now false caches (finishes packets metrics items) =
      let decided = decide rtp_payload serial packets caches in
      (plan_audio audio_window now decided.0 decided.0.codec items metrics, decided.1)

  -- `_read_prefix`
  unfoldable pub read_prefix :
      ℕ → ℕ → ℕ → Bool → Caches → List Item → Metrics → Ending PayloadPlan × Caches
  read_prefix serial audio_window now cancelled caches items metrics =
      plan_prefix serial audio_window now cancelled caches (prefix_loop items [] metrics)
