-- ===== src/Session/Plan/Join.antt =====
-- About sessions of the same camera, one after the other: a join of a stream in flight opens on what
-- an earlier session cached.
use ezviz_stream_bridge.Prelude.{
  ℕ, ◌≡◌, ◌≢◌, ◌⊎◌, refl, ap, ◌∙◌, true, Option, none, some, List, [], ◌∷◌, Bytes, All, inl, inr,
}
use ezviz_stream_bridge.Rtp.Constants.{Codec}
use ezviz_stream_bridge.Rtp.Packing.{annex_b}
use ezviz_stream_bridge.Rtp.ParameterSets.{parameter_sets}
use ezviz_stream_bridge.Rtp.ParameterSets.Wire.{IsClean, sets_among, parameter_sets-Wire}
use ezviz_stream_bridge.Rtp.Depacketizer.Wire.{Wire}
use ezviz_stream_bridge.ProgramStream.{ParameterSets, new_inspector}
use ezviz_stream_bridge.Session.Prefix.{Transport, mpeg_ps, mpeg_ts, rtp, unknown, some_bytes}
use ezviz_stream_bridge.Session.Plan.{
  lookup, opened, Caches, codec_plan, inspect_packets, decide_mpeg_ps, transport_of, named_codec,
  remember_parameter_sets, join_rtp, decide_named, decide_transport, decide, found_mpeg_ps,
}
use ezviz_stream_bridge.Session.Plan.Others.{lookup-store, remember_ps-rtp_sets}
use ezviz_stream_bridge.Session.Plan.Sessions.{
  CameraSession, after_decide-rtp_sets, run_camera_session, run_sessions, run_camera_session-other,
}

module _ (rtp_payload : Bytes → Option Bytes) where
  -- A session that leaves the RTP sets of a camera alone: one of another camera, or one with no packet
  -- that names a codec.
  abbrev pub SparesRtp : ℕ → CameraSession → Type 0
  SparesRtp serial session =
      (session.serial ≢ serial) ⊎ (named_codec rtp_payload session.leading ≡ none)

  unnamed-transport :
      (serial : ℕ) (packets : List Bytes) (caches : Caches) (transport : Transport)
      → named_codec rtp_payload packets ≡ none
      → (decide_transport rtp_payload serial packets caches transport).1.rtp_sets ≡ caches.rtp_sets
  unfolding decide_mpeg_ps
  unnamed-transport serial packets caches mpeg_ps unnamed =
      go (inspect_packets new_inspector none packets)
    where
      go :
          (found : Option ParameterSets)
          → (found_mpeg_ps serial packets caches found).1.rtp_sets ≡ caches.rtp_sets
      go none = refl
      go (some current) = remember_ps-rtp_sets serial current caches
  unnamed-transport serial packets caches rtp unnamed =
      ap (λ named. (decide_named rtp_payload serial packets caches named).1.rtp_sets) unnamed
  unnamed-transport serial packets caches mpeg_ts unnamed = refl
  unnamed-transport serial packets caches unknown unnamed = refl

  unnamed-decide :
      (serial : ℕ) (packets : List Bytes) (caches : Caches)
      → named_codec rtp_payload packets ≡ none
      → (decide rtp_payload serial packets caches).1.rtp_sets ≡ caches.rtp_sets
  unfolding decide
  unnamed-decide serial packets caches unnamed =
      unnamed-transport serial packets caches (transport_of packets) unnamed

  run_sessions-SparesRtp :
      (serial : ℕ) (sessions : List CameraSession) (caches : Caches)
      → All (SparesRtp serial) sessions
      → lookup serial (run_sessions rtp_payload sessions caches).rtp_sets
        ≡ lookup serial caches.rtp_sets
  run_sessions-SparesRtp serial [] caches spares = refl
  run_sessions-SparesRtp serial (session ∷ sessions) caches (inl other, spares) =
      run_sessions-SparesRtp serial sessions (run_camera_session rtp_payload session caches) spares
      ∙ ap (λ entries. entries.0) (run_camera_session-other rtp_payload serial session caches other)
  run_sessions-SparesRtp serial (session ∷ sessions) caches (inr unnamed, spares) =
      let decided = decide rtp_payload session.serial session.leading caches in
      run_sessions-SparesRtp serial sessions (run_camera_session rtp_payload session caches) spares
      ∙ ap (lookup serial) (
          after_decide-rtp_sets session session.pumped decided
          ∙ unnamed-decide session.serial session.leading caches unnamed)

  decide-rtp :
      (serial : ℕ) (packets : List Bytes) (caches : Caches) (named : Option (Codec × Option ℕ))
      → transport_of packets ≡ rtp
      → named_codec rtp_payload packets ≡ named
      → decide rtp_payload serial packets caches
        ≡ decide_named rtp_payload serial packets caches named
  unfolding decide
  decide-rtp serial packets caches named transport e =
      ap (decide_transport rtp_payload serial packets caches) transport
      ∙ ap (decide_named rtp_payload serial packets caches) e

  remembered :
      (serial : ℕ) (packets : List Bytes) (codec : Codec) (pt : ℕ) (caches : Caches)
      → some_bytes (parameter_sets rtp_payload packets codec pt) ≡ true
      → lookup serial
          (remember_parameter_sets rtp_payload serial packets codec (some pt) caches).rtp_sets
        ≡ some (opened codec pt (parameter_sets rtp_payload packets codec pt))
  unfolding remember_parameter_sets
  remembered serial packets codec pt caches e = rw e (
      lookup-store serial (opened codec pt (parameter_sets rtp_payload packets codec pt))
        caches.rtp_sets)

  annex_b-some_bytes : (units : List Bytes) → units ≢ [] → some_bytes (annex_b units) ≡ true
  annex_b-some_bytes [] some_units = absurd (some_units refl)
  annex_b-some_bytes (unit ∷ units) some_units = refl

  -- When a session of a camera opens an RTP stream, that is a packet names the codec and the packets
  -- carry parameter sets, then a later session of that camera that joins the stream, with no packet
  -- that names a codec, is read as that codec and payload type and opens on the Annex-B stream of
  -- those parameter sets; sessions of other cameras, and further joins, may come between the two, and
  -- whatever the pumps of the sessions read does not matter.
  pub decide_join :
      (serial : ℕ) (codec : Codec) (pt : ℕ) (opening nals joining : List Bytes)
      (pumped : Option (List Bytes)) (between : List CameraSession) (caches : Caches)
      → transport_of opening ≡ rtp
      → named_codec rtp_payload opening ≡ some (codec, some pt)
      → Wire rtp_payload codec (some pt) none opening nals
      → All IsClean nals
      → sets_among codec nals ≢ []
      → All (SparesRtp serial) between
      → transport_of joining ≡ rtp
      → named_codec rtp_payload joining ≡ none
      → (let first : CameraSession = record {
        serial = serial;
        leading = opening;
        pumped = pumped;
      } in
          (decide rtp_payload serial joining (run_sessions rtp_payload (first ∷ between) caches)).0
          ≡ codec_plan codec (some pt) joining (annex_b (sets_among codec nals)))
  decide_join serial codec pt opening nals joining pumped between caches is_rtp named w clean
        some_sets spares joins_rtp unnamed =
      let sets = parameter_sets-Wire rtp_payload codec pt opening nals w clean in
      let first : CameraSession = record { serial = serial; leading = opening; pumped = pumped } in
      let decided = decide rtp_payload serial opening caches in
      let cached = run_camera_session rtp_payload first caches in
      ap (λ decided. decided.0)
        (decide-rtp serial joining (run_sessions rtp_payload between cached) none joins_rtp unnamed)
      ∙ ap (λ entry. join_rtp rtp_payload entry joining)
          (run_sessions-SparesRtp serial between cached spares
            ∙ ap (lookup serial) (after_decide-rtp_sets first pumped decided)
            ∙ ap (λ decided. lookup serial decided.1.rtp_sets)
                (decide-rtp serial opening caches (some (codec, some pt)) is_rtp named)
            ∙ remembered serial opening codec pt caches
                (ap some_bytes sets ∙ annex_b-some_bytes (sets_among codec nals) some_sets)
            ∙ ap (λ prelude. some (opened codec pt prelude)) sets)
