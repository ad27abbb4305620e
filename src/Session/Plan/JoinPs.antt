-- ===== src/Session/Plan/JoinPs.antt =====
-- The same for an MPEG-PS stream, whose cached sets go ahead of a later join as a pack of their own.
use ezviz_stream_bridge.Prelude.{
  ℕ, ◌≡◌, ◌≢◌, ◌⊎◌, refl, sym, ap, ◌∙◌, true, false, not, Option, none, some, List, [], ◌∷◌, ◌++◌,
  Bytes, All, arith, ◌==◌, ==→eq, Bool-cases, inl, inr,
}
use mathlib.Core.Path.{subst}
use mathlib.Core.Option.{some-injective}
use ezviz_stream_bridge.ProgramStream.{
  ParameterSets, Inspector, new_inspector, all_names, make_prelude,
}
use ezviz_stream_bridge.Session.Prefix.{Transport, mpeg_ps, mpeg_ts, rtp, unknown}
use ezviz_stream_bridge.Session.Plan.{
  lookup, Caches, plain_plan, or_current, inspect_packets, join_mpeg_ps, found_mpeg_ps,
  decide_mpeg_ps, transport_of, named_codec, decide_named, decide_transport, decide,
  remember_parameter_sets, store, opened, cached_ps_parameter_sets,
}
use ezviz_stream_bridge.Rtp.Constants.{Codec}
use ezviz_stream_bridge.Rtp.ParameterSets.{parameter_sets}
use ezviz_stream_bridge.Session.Prefix.{some_bytes}
use ezviz_stream_bridge.Session.Plan.Others.{either}
use ezviz_stream_bridge.Session.Plan.Sessions.{
  CameraSession, bodies_of, observe_session, after_decide, run_camera_session, run_sessions,
  run_camera_session-other,
}
use ezviz_stream_bridge.Session.Pump.{inspector_for}
use ezviz_stream_bridge.Session.Plan.Observed.{
  IsWhole, inspect_packets-IsWhole, inspect_packets-or_current, inspect_packets-append,
  lookup-observe,
}

module _ (rtp_payload : Bytes → Option Bytes) where
  -- The bodies that a session went by: those of `_decide`, and those of its pump, where it ran.
  abbrev pub seen_by : CameraSession → List Bytes
  seen_by session = session.leading ++ bodies_of session.pumped

  -- A session that leaves the MPEG-PS sets of a camera alone: one of another camera, or one whose
  -- bodies do not complete the sets, neither the leading ones nor those that its pump reads.
  abbrev pub SparesPs : ℕ → CameraSession → Type 0
  SparesPs serial session =
      (session.serial ≢ serial) ⊎ (inspect_packets new_inspector none (seen_by session) ≡ none)

  remember-ps_sets :
      (serial : ℕ) (packets : List Bytes) (codec : Codec) (pt : Option ℕ) (caches : Caches)
      → (remember_parameter_sets rtp_payload serial packets codec pt caches).ps_sets
        ≡ caches.ps_sets
  unfolding remember_parameter_sets
  remember-ps_sets serial packets codec none caches = refl
  remember-ps_sets serial packets codec (some pt) caches =
      let prelude = parameter_sets rtp_payload packets codec pt in
      either (λ c. c.ps_sets ≡ caches.ps_sets) (not (some_bytes prelude)) caches
        (record caches { rtp_sets = store serial (opened codec pt prelude) caches.rtp_sets }) refl
        refl

  without_sets :
      (serial : ℕ) (packets : List Bytes) (caches : Caches) (transport : Transport)
      → inspect_packets new_inspector none packets ≡ none
      → (decide_transport rtp_payload serial packets caches transport).1.ps_sets ≡ caches.ps_sets
  unfolding decide_mpeg_ps
  without_sets serial packets caches mpeg_ps nothing =
      ap (λ found. (found_mpeg_ps serial packets caches found).1.ps_sets) nothing
  without_sets serial packets caches rtp nothing = go (named_codec rtp_payload packets)
    where
      go :
          (named : Option (Codec × Option ℕ))
          → (decide_named rtp_payload serial packets caches named).1.ps_sets ≡ caches.ps_sets
      go none = refl
      go (some (codec, pt)) = remember-ps_sets serial packets codec pt caches
  without_sets serial packets caches mpeg_ts nothing = refl
  without_sets serial packets caches unknown nothing = refl

  observe_session-none :
      (serial : ℕ) (inspector : Option Inspector) (bodies : List Bytes) (caches : Caches)
      → ((s : Inspector) → inspector ≡ some s → inspect_packets s none bodies ≡ none)
      → lookup serial (observe_session serial inspector bodies caches).ps_sets
        ≡ lookup serial caches.ps_sets
  observe_session-none serial none bodies caches nothing = refl
  observe_session-none serial (some s) bodies caches nothing =
      lookup-observe serial s bodies caches (lookup serial caches.ps_sets) refl
      ∙ inspect_packets-or_current s (lookup serial caches.ps_sets) bodies
      ∙ ap (λ found. or_current found (lookup serial caches.ps_sets)) (nothing s refl)

  inspector_for-new :
      (transport : Transport) (s : Inspector) → inspector_for transport ≡ some s → s ≡ new_inspector
  inspector_for-new mpeg_ps s e = sym (some-injective _ _ e)
  inspector_for-new mpeg_ts s e = absurd cc
  inspector_for-new rtp s e = absurd cc
  inspector_for-new unknown s e = absurd cc

  run_camera_session-none :
      (session : CameraSession) (caches : Caches)
      → inspect_packets new_inspector none (seen_by session) ≡ none
      → lookup session.serial (run_camera_session rtp_payload session caches).ps_sets
        ≡ lookup session.serial caches.ps_sets
  unfolding decide
  run_camera_session-none session caches nothing =
      go session.pumped refl
      ∙ ap (lookup session.serial) (
          without_sets session.serial session.leading caches (transport_of session.leading) (
            inspect_packets-append new_inspector session.leading (bodies_of session.pumped)
              nothing))
    where
      go :
          (pumped : Option (List Bytes))
          → session.pumped ≡ pumped
          → (let decided = decide rtp_payload session.serial session.leading caches in
              lookup session.serial (after_decide session pumped decided).ps_sets
              ≡ lookup session.serial decided.1.ps_sets)
      go none e = refl
      go (some bodies) e =
          let decided = decide rtp_payload session.serial session.leading caches in
          observe_session-none session.serial (inspector_for decided.0.transport)
            (session.leading ++ bodies) decided.1
            (λ s is_new.
              ap (λ s. inspect_packets s none (session.leading ++ bodies))
                (inspector_for-new decided.0.transport s is_new)
              ∙ ap
                  (λ pumped.
                    inspect_packets new_inspector none (session.leading ++ bodies_of pumped))
                  (sym e)
              ∙ nothing)

  run_sessions-SparesPs :
      (serial : ℕ) (sessions : List CameraSession) (caches : Caches)
      → All (SparesPs serial) sessions
      → lookup serial (run_sessions rtp_payload sessions caches).ps_sets
        ≡ lookup serial caches.ps_sets
  run_sessions-SparesPs serial [] caches spares = refl
  run_sessions-SparesPs serial (session ∷ sessions) caches (inl other, spares) =
      run_sessions-SparesPs serial sessions (run_camera_session rtp_payload session caches) spares
      ∙ ap (λ entries. entries.1) (run_camera_session-other rtp_payload serial session caches other)
  run_sessions-SparesPs serial (session ∷ sessions) caches (inr nothing, spares) =
      run_sessions-SparesPs serial sessions (run_camera_session rtp_payload session caches) spares
      ∙ same_or_other (Bool-cases (session.serial == serial))
    where
      same_or_other :
          ((session.serial == serial) ≡ true) ⊎ ((session.serial == serial) ≡ false)
          → lookup serial (run_camera_session rtp_payload session caches).ps_sets
            ≡ lookup serial caches.ps_sets
      same_or_other (inl same) =
          subst
            (λ n.
              lookup n (run_camera_session rtp_payload session caches).ps_sets
              ≡ lookup n caches.ps_sets)
            (==→eq session.serial serial same) (run_camera_session-none session caches nothing)
      same_or_other (inr apart) =
          ap (λ entries. entries.1)
            (run_camera_session-other rtp_payload serial session caches
              (λ e. let f : (session.serial == serial) ≡ true = ground (arith, e) in cc))

  decide-mpeg_ps :
      (serial : ℕ) (packets : List Bytes) (caches : Caches) (found : Option ParameterSets)
      → transport_of packets ≡ mpeg_ps
      → inspect_packets new_inspector none packets ≡ found
      → decide rtp_payload serial packets caches ≡ found_mpeg_ps serial packets caches found
  unfolding decide decide_mpeg_ps
  decide-mpeg_ps serial packets caches found transport e =
      ap (decide_transport rtp_payload serial packets caches) transport
      ∙ ap (found_mpeg_ps serial packets caches) e

  found_mpeg_ps-transport :
      (serial : ℕ) (packets : List Bytes) (caches : Caches) (found : Option ParameterSets)
      → (found_mpeg_ps serial packets caches found).0.transport ≡ mpeg_ps
  found_mpeg_ps-transport serial packets caches (some current) = refl
  found_mpeg_ps-transport serial packets caches none = go (cached_ps_parameter_sets serial caches)
    where
      go : (cached : Option ParameterSets) → (join_mpeg_ps cached packets).transport ≡ mpeg_ps
      go none = refl
      go (some cached) = refl

  -- The entry of a camera after an MPEG-PS session whose pump ran.
  opening_sets :
      (serial : ℕ) (current : ParameterSets) (leading bodies : List Bytes) (caches : Caches)
      → transport_of leading ≡ mpeg_ps
      → inspect_packets new_inspector none (leading ++ bodies) ≡ some current
      → (let first : CameraSession = record {
        serial = serial;
        leading = leading;
        pumped = some bodies;
      } in
          lookup serial (run_camera_session rtp_payload first caches).ps_sets ≡ some current)
  opening_sets serial current leading bodies caches is_ps complete =
      let decided = decide rtp_payload serial leading caches in
      let cached = lookup serial decided.1.ps_sets in
      let transport =
        ap (λ decided. decided.0.transport) (decide-mpeg_ps serial leading caches _ is_ps refl)
        ∙ found_mpeg_ps-transport serial leading caches
            (inspect_packets new_inspector none leading) in
      ap
        (λ transport.
          lookup serial
            (observe_session serial (inspector_for transport) (leading ++ bodies)
              decided.1).ps_sets)
        transport
      ∙ lookup-observe serial new_inspector (leading ++ bodies) decided.1 cached refl
      ∙ inspect_packets-or_current new_inspector cached (leading ++ bodies)
      ∙ ap (λ found. or_current found cached) complete

  -- When the bodies that an MPEG-PS session of a camera reads, the leading ones and those of its pump,
  -- complete parameter sets, the last time as the sets `current`, then a later MPEG-PS session of that
  -- camera whose leading packets do not is started with the prelude of those sets ahead of its
  -- packets, and those sets have a unit of each type; sessions of other cameras, and further ones in
  -- which neither the leading packets nor the pump's complete the sets, may come between the two.
  pub decide_join_mpeg_ps :
      (serial : ℕ) (current : ParameterSets) (opening bodies joining : List Bytes)
      (between : List CameraSession) (caches : Caches)
      → transport_of opening ≡ mpeg_ps
      → inspect_packets new_inspector none (opening ++ bodies) ≡ some current
      → All (SparesPs serial) between
      → transport_of joining ≡ mpeg_ps
      → inspect_packets new_inspector none joining ≡ none
      → (let first : CameraSession = record {
        serial = serial;
        leading = opening;
        pumped = some bodies;
      } in
          ((decide rtp_payload serial joining (run_sessions rtp_payload (first ∷ between) caches)).0
            ≡ record (plain_plan mpeg_ps joining) { container_prelude = make_prelude current })
          × (all_names current.sets ≡ true))
  decide_join_mpeg_ps serial current opening bodies joining between caches is_ps complete spares
        joins_ps nothing =
      let first : CameraSession = record {
        serial = serial;
        leading = opening;
        pumped = some bodies;
      } in
      let cached = run_camera_session rtp_payload first caches in
      (
        ap (λ decided. decided.0)
              (decide-mpeg_ps serial joining (run_sessions rtp_payload between cached) none joins_ps
                nothing)
            ∙ ap (λ entry. join_mpeg_ps entry joining)
                (run_sessions-SparesPs serial between cached spares
                  ∙ opening_sets serial current opening bodies caches is_ps complete),
        subst IsWhole complete (inspect_packets-IsWhole new_inspector none (opening ++ bodies) tt),
      )
