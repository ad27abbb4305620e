-- ===== src/Session/Plan.antt =====
-- ezviz_stream_bridge/session.py, lines 658 to 691 and 1207 to 1341: how a session is to be read,
-- and the parameter sets that are kept for later sessions of the same camera.
mod Others
pub mod Sessions
pub mod Join
pub mod Observed
pub mod JoinPs
use ezviz_stream_bridge.Prelude.{
  ℕ, Bool, true, false, not, Option, none, some, List, [], ◌∷◌, ◌++◌, Bytes, concat, ◌==◌,
  if◌then◌else◌,
}
use ezviz_stream_bridge.Rtp.Constants.{Codec}
use ezviz_stream_bridge.Rtp.ParameterSets.{parameter_sets}
use ezviz_stream_bridge.ProgramStream.{
  ParameterSets, Inspector, new_inspector, all_names, make_prelude,
}
use ezviz_stream_bridge.ProgramStream
use ezviz_stream_bridge.Session.Prefix.{
  Transport, mpeg_ps, mpeg_ts, rtp, unknown, classify_payload, payload_type_of, codec_of,
  some_bytes,
}

-- FFmpeg's input format: `_MPEG_PS_DEMUXER`, or the codec of an elementary stream.
pub data Demuxer : Type 0 where
  mpeg : Demuxer
  elementary : Codec → Demuxer

-- `_PayloadPlan`
pub record PayloadPlan : Type 0 where
  pub transport : Transport
  pub demuxer : Demuxer
  pub codec : Option Codec
  pub payload_type : Option ℕ
  pub packets : List Bytes
  pub audio_payload_type : Option ℕ
  pub audio_channels : Option ℕ
  pub parameter_prelude : Bytes
  pub container_prelude : Bytes

-- A dict by serial number, the entry that was set last in front.
abbrev pub Dict : Type 0 → Type 0
Dict A = List (ℕ × A)

module _ {A : Type 0} where
  -- `entries.get(serial)`
  unfoldable pub lookup : ℕ → Dict A → Option A
  lookup serial [] = none
  lookup serial (entry ∷ entries) =
      let rest = lookup serial entries in if serial == entry.0 then some entry.1 else rest

  -- `entries[serial] = value`
  abbrev pub store : ℕ → A → Dict A → Dict A
  store serial value entries = (serial, value) ∷ entries

-- An entry of `_PARAMETER_SETS`.
pub record OpenedWith : Type 0 where
  pub opened_codec : Codec
  pub opened_payload_type : ℕ
  pub prelude : Bytes

abbrev pub opened : Codec → ℕ → Bytes → OpenedWith
opened codec pt prelude = record {
  opened_codec = codec;
  opened_payload_type = pt;
  prelude = prelude;
}

-- `_PARAMETER_SETS` and `_PS_PARAMETER_SETS`, which all sessions of the process share.
pub record Caches : Type 0 where
  pub rtp_sets : Dict OpenedWith
  pub ps_sets : Dict ParameterSets

-- A plan of nothing but the packets, for FFmpeg's own demuxer.
abbrev pub plain_plan : Transport → List Bytes → PayloadPlan
plain_plan transport packets = record {
  transport = transport;
  demuxer = mpeg;
  codec = none;
  payload_type = none;
  packets = packets;
  audio_payload_type = none;
  audio_channels = none;
  parameter_prelude = [];
  container_prelude = [];
}

-- A plan for a stream that the session depacketizes.
abbrev pub codec_plan : Codec → Option ℕ → List Bytes → Bytes → PayloadPlan
codec_plan codec payload_type packets prelude = record {
  transport = rtp;
  demuxer = elementary codec;
  codec = some codec;
  payload_type = payload_type;
  packets = packets;
  audio_payload_type = none;
  audio_channels = none;
  parameter_prelude = prelude;
  container_prelude = [];
}

-- `_remember_ps_parameter_sets`
unfoldable pub remember_ps_parameter_sets : ℕ → ParameterSets → Caches → Caches
remember_ps_parameter_sets serial current caches =
    if not (all_names current.sets)
    then caches
    else record caches { ps_sets = store serial current caches.ps_sets }

-- `_cached_ps_parameter_sets`
abbrev pub cached_ps_parameter_sets : ℕ → Caches → Option ParameterSets
cached_ps_parameter_sets serial caches = lookup serial caches.ps_sets

-- `_cached_parameter_sets`
abbrev pub cached_parameter_sets : ℕ → Caches → Option OpenedWith
cached_parameter_sets serial caches = lookup serial caches.rtp_sets

-- `a or b`, of what may be `None`
abbrev pub or_current : Option ParameterSets → Option ParameterSets → Option ParameterSets
or_current none current = current
or_current (some sets) current = some sets

-- The loop of `_decide_mpeg_ps`.
unfoldable pub inspect_packets :
    Inspector → Option ParameterSets → List Bytes → Option ParameterSets
inspect_packets inspector current [] = current
inspect_packets inspector current (body ∷ packets) =
    let fed = ProgramStream.feed inspector body in
    inspect_packets fed.0 (or_current fed.1 current) packets

-- What `_decide_mpeg_ps` does with what is cached; an empty prelude leaves the plan as it is.
abbrev pub join_mpeg_ps : Option ParameterSets → List Bytes → PayloadPlan
join_mpeg_ps none packets = plain_plan mpeg_ps packets
join_mpeg_ps (some cached) packets = record (plain_plan mpeg_ps packets) {
  container_prelude = make_prelude cached;
}

-- `_decide_mpeg_ps`, by what its loop found.
abbrev pub found_mpeg_ps : ℕ → List Bytes → Caches → Option ParameterSets → PayloadPlan × Caches
found_mpeg_ps serial packets caches (some current) =
    (plain_plan mpeg_ps packets, remember_ps_parameter_sets serial current caches)
found_mpeg_ps serial packets caches none =
    (join_mpeg_ps (cached_ps_parameter_sets serial caches) packets, caches)

-- `_decide_mpeg_ps`
unfoldable pub decide_mpeg_ps : ℕ → List Bytes → Caches → PayloadPlan × Caches
decide_mpeg_ps serial packets caches =
    found_mpeg_ps serial packets caches (inspect_packets new_inspector none packets)

-- `_observe_ps_parameter_sets` of a session that has an inspector.
unfoldable pub observe_ps_parameter_sets : ℕ → Inspector → List Bytes → Caches → Inspector × Caches
observe_ps_parameter_sets serial inspector [] caches = (inspector, caches)
observe_ps_parameter_sets serial inspector (body ∷ bodies) caches =
    let fed = ProgramStream.feed inspector body in
    observe_ps_parameter_sets serial fed.0 bodies
      (elim fed.1 [ none ↦ caches | some sets ↦ remember_ps_parameter_sets serial sets caches ])

-- The transport that `_decide` goes by.
abbrev pub transport_of : List Bytes → Transport
transport_of packets =
    let data_ = concat packets in if some_bytes data_ then (classify_payload data_).0 else unknown

module _ (rtp_payload : Bytes → Option Bytes) where
  -- The loop of `_decide` that looks for a packet that names the codec.
  unfoldable pub named_codec : List Bytes → Option (Codec × Option ℕ)
  named_codec [] = none
  named_codec (body ∷ packets) =
      let rest = named_codec packets in
      elim (codec_of rtp_payload body) [
        | some codec ↦ some (codec, payload_type_of body)
        | none ↦ rest
      ]

  -- `_remember_parameter_sets`
  unfoldable pub remember_parameter_sets : ℕ → List Bytes → Codec → Option ℕ → Caches → Caches
  remember_parameter_sets serial packets codec none caches = caches
  remember_parameter_sets serial packets codec (some pt) caches =
      let prelude = parameter_sets rtp_payload packets codec pt in
      if not (some_bytes prelude)
      then caches
      else record caches { rtp_sets = store serial (opened codec pt prelude) caches.rtp_sets }

  -- A join of a stream that is in flight, by what is cached.
  abbrev pub join_rtp : Option OpenedWith → List Bytes → PayloadPlan
  join_rtp none packets = plain_plan rtp packets
  join_rtp (some cached) packets =
      codec_plan cached.opened_codec (some cached.opened_payload_type) packets cached.prelude

  -- `_decide` of an RTP payload, by the codec that a packet named.
  abbrev pub decide_named :
      ℕ → List Bytes → Caches → Option (Codec × Option ℕ) → PayloadPlan × Caches
  decide_named serial packets caches (some (codec, pt)) =
      (codec_plan codec pt packets [], remember_parameter_sets serial packets codec pt caches)
  decide_named serial packets caches none =
      (join_rtp (cached_parameter_sets serial caches) packets, caches)

  -- `_decide`, by the transport.
  abbrev pub decide_transport : ℕ → List Bytes → Caches → Transport → PayloadPlan × Caches
  decide_transport serial packets caches mpeg_ps = decide_mpeg_ps serial packets caches
  decide_transport serial packets caches rtp =
      decide_named serial packets caches (named_codec packets)
  decide_transport serial packets caches transport = (plain_plan transport packets, caches)

  -- `_decide`
  unfoldable pub decide : ℕ → List Bytes → Caches → PayloadPlan × Caches
  decide serial packets caches = decide_transport serial packets caches (transport_of packets)
