-- ===== src/Tests/Plan.antt =====
-- ezviz_stream_bridge/session.py in concrete runs: what the packets of a session are, and a join of a
-- stream in flight.
use ezviz_stream_bridge.Prelude.{
  ◌≡◌, ◌≢◌, inl, inr, refl, true, none, some, List, [], ◌∷◌, ◌++◌, Bytes, arith, All, find,
  starts_with,
}
use ezviz_stream_bridge.Rtp.Constants.{h264}
use ezviz_stream_bridge.Rtp.Packing.{annex_b}
use ezviz_stream_bridge.Rtp.Detect.{
  detect_codec, detect_parameter_set, aggregated_codec, aggregated_codec_loop, contains,
}
use ezviz_stream_bridge.Rtp.ParameterSets.Wire.{sets_among}
use ezviz_stream_bridge.ProgramStream.{new_inspector, all_names, make_prelude}
use ezviz_stream_bridge.ProgramStream.{
  feed, receive, parse, parse_loop, parse_round, parse_code, pack_size, pes_size, take_pes,
  pes_payload, mpeg1_payload, skip_stuffing, feed_elementary, scan_elementary, inspect_nal,
  cache_unit, snapshot, next_system_start,
}
use ezviz_stream_bridge.Session.Prefix.{
  mpeg_ps, rtp, classify_payload, find_sync, looks_like_mpeg_ts, sync_repeats, payload_type_of,
  codec_of,
}
use ezviz_stream_bridge.Session.Prefix.Classify.{Evidence, classify_payload_lem}
use ezviz_stream_bridge.Session.Plan.{
  Caches, plain_plan, codec_plan, inspect_packets, transport_of, named_codec, decide,
}
use ezviz_stream_bridge.Session.Plan.Sessions.{CameraSession, run_sessions}
use ezviz_stream_bridge.Session.Plan.Join.{SparesRtp, decide_join}
use ezviz_stream_bridge.Session.Plan.JoinPs.{SparesPs, decide_join_mpeg_ps}
use ezviz_stream_bridge.Tests.Rtp.{
  unwrap, packet, sps, picture, first_fragment, last_fragment, session, Wire-session,
  payload_type-packet, IsClean-session,
}
use ezviz_stream_bridge.Tests.ProgramStream.{header, one_each, video_packet}

abbrev pub empty_caches : Caches
empty_caches = record { rtp_sets = []; ps_sets = [] }

abbrev joining : List Bytes
joining = packet first_fragment ∷ packet last_fragment ∷ []

-- A session of another camera, one of the same camera that joins the stream, and one that was
-- aborted before its pump ran.
abbrev between : List CameraSession
between =
    record { serial = 8; leading = session; pumped = some session }
    ∷ record { serial = 7; leading = joining; pumped = some session }
    ∷ record { serial = 7; leading = joining; pumped = none }
    ∷ []

abbrev opening : CameraSession
opening = record { serial = 7; leading = session; pumped = some joining }

session_transport : transport_of session ≡ rtp
unfolding classify_payload find starts_with find_sync looks_like_mpeg_ts sync_repeats
session_transport = refl

joining_transport : transport_of joining ≡ rtp
unfolding classify_payload find starts_with find_sync looks_like_mpeg_ts sync_repeats
joining_transport = refl

session_named : named_codec unwrap session ≡ some (h264, some 96)
unfolding named_codec codec_of unwrap payload_type_of detect_codec detect_parameter_set
    aggregated_codec aggregated_codec_loop contains
session_named = refl

joining_named : named_codec unwrap joining ≡ none
unfolding named_codec codec_of unwrap payload_type_of detect_codec detect_parameter_set
    aggregated_codec aggregated_codec_loop contains
joining_named = refl

some_sets : sets_among h264 (sps ∷ picture ∷ []) ≢ []
some_sets e = cc

spares : All (SparesRtp unwrap 7) between
spares = (inl (λ e. omega (arith, e)), (inr joining_named, (inr joining_named, tt)))

decide_join_example :
    (decide unwrap 7 joining (run_sessions unwrap (opening ∷ between) empty_caches)).0
    ≡ codec_plan h264 (some 96) joining (annex_b (sets_among h264 (sps ∷ picture ∷ [])))
decide_join_example =
    decide_join unwrap 7 h264 96 session (sps ∷ picture ∷ []) joining (some joining) between
      empty_caches session_transport session_named
      (Wire-session (some 96) (λ payload. inr (payload_type-packet payload))) IsClean-session
      some_sets spares joining_transport joining_named

classify_payload_lem_example :
    Evidence (header ++ video_packet) (classify_payload (header ++ video_packet))
classify_payload_lem_example = classify_payload_lem (header ++ video_packet)

abbrev ps_opening : List Bytes
ps_opening = header ∷ video_packet ∷ []

-- A packet of video that begins with no start code of a parameter set.
abbrev ps_joining : List Bytes
ps_joining = (header ++ (0 ∷ 0 ∷ 1 ∷ 0xE0 ∷ 0 ∷ 5 ∷ 0x80 ∷ 0 ∷ 0 ∷ 1 ∷ 2 ∷ [])) ∷ []

opening_ps : transport_of (header ∷ []) ≡ mpeg_ps
unfolding classify_payload find starts_with
opening_ps = refl

joining_ps : transport_of ps_joining ≡ mpeg_ps
unfolding classify_payload find starts_with
joining_ps = refl

opening_complete :
    inspect_packets new_inspector none ((header ∷ []) ++ (video_packet ∷ [])) ≡ some one_each
unfolding inspect_packets feed receive parse parse_loop parse_round parse_code pack_size pes_size
    take_pes pes_payload mpeg1_payload skip_stuffing feed_elementary scan_elementary inspect_nal
    cache_unit snapshot next_system_start find starts_with
opening_complete = refl

joining_incomplete : inspect_packets new_inspector none ps_joining ≡ none
unfolding inspect_packets feed receive parse parse_loop parse_round parse_code pack_size pes_size
    take_pes pes_payload mpeg1_payload skip_stuffing feed_elementary scan_elementary inspect_nal
    cache_unit snapshot next_system_start find starts_with
joining_incomplete = refl

-- A session whose first packet is the pack's header alone: its pump reads the parameter sets.
abbrev ps_first : CameraSession
ps_first = record { serial = 7; leading = header ∷ []; pumped = some (video_packet ∷ []) }

abbrev ps_between : List CameraSession
ps_between =
    record { serial = 8; leading = ps_opening; pumped = some [] }
    ∷ record { serial = 7; leading = ps_joining; pumped = some [] }
    ∷ []

spares_ps : All (SparesPs unwrap 7) ps_between
spares_ps = (inl (λ e. omega (arith, e)), (inr joining_incomplete, tt))

decide_join_mpeg_ps_example :
    ((decide unwrap 7 ps_joining (run_sessions unwrap (ps_first ∷ ps_between) empty_caches)).0
      ≡ record (plain_plan mpeg_ps ps_joining) { container_prelude = make_prelude one_each })
    × (all_names one_each.sets ≡ true)
decide_join_mpeg_ps_example =
    decide_join_mpeg_ps unwrap 7 one_each (header ∷ []) (video_packet ∷ []) ps_joining ps_between
      empty_caches opening_ps opening_complete spares_ps joining_ps joining_incomplete
