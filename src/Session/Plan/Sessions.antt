-- ===== src/Session/Plan/Sessions.antt =====
-- ezviz_stream_bridge/session.py: what the sessions of a process do to the caches that they share, in
-- `_decide` and, once the pump runs, in `_observe_ps_parameter_sets`.
use ezviz_stream_bridge.Prelude.{
  ℕ, ◌≡◌, ◌≢◌, refl, ap, ◌∙◌, Option, none, some, List, [], ◌∷◌, ◌++◌, Bytes,
}
use ezviz_stream_bridge.ProgramStream.{ParameterSets, Inspector}
use ezviz_stream_bridge.ProgramStream
use ezviz_stream_bridge.Session.Plan.{
  PayloadPlan, lookup, Caches, remember_ps_parameter_sets, observe_ps_parameter_sets, decide,
}
use ezviz_stream_bridge.Session.Plan.Others.{
  entries_of, remember_ps-rtp_sets, remember_ps-other, decide-other,
}
use ezviz_stream_bridge.Session.Pump.{inspector_for}

-- A session: the serial number of its camera, the packets that `_decide` goes by, and, where its pump
-- ran, the bodies that the pump had behind them, of the audio's window and of its loop.
pub record CameraSession : Type 0 where
  pub serial : ℕ
  pub leading : List Bytes
  pub pumped : Option (List Bytes)

abbrev pub bodies_of : Option (List Bytes) → List Bytes
bodies_of none = []
bodies_of (some bodies) = bodies

-- `_observe_ps_parameter_sets` for all the bodies of a pump.
abbrev pub observe_session : ℕ → Option Inspector → List Bytes → Caches → Caches
observe_session serial none bodies caches = caches
observe_session serial (some inspector) bodies caches =
    (observe_ps_parameter_sets serial inspector bodies caches).1

-- What the pump does to the caches, where it runs.
abbrev pub after_decide : CameraSession → Option (List Bytes) → PayloadPlan × Caches → Caches
after_decide session none decided = decided.1
after_decide session (some bodies) decided =
    observe_session session.serial (inspector_for decided.0.transport) (session.leading ++ bodies)
      decided.1

observe-rtp_sets :
    (serial : ℕ) (inspector : Inspector) (bodies : List Bytes) (caches : Caches)
    → (observe_ps_parameter_sets serial inspector bodies caches).1.rtp_sets ≡ caches.rtp_sets
unfolding observe_ps_parameter_sets
observe-rtp_sets serial inspector [] caches = refl
observe-rtp_sets serial inspector (body ∷ bodies) caches =
    let fed = ProgramStream.feed inspector body in
    let kept : Caches = elim fed.1 [
      | none ↦ caches
      | some sets ↦ remember_ps_parameter_sets serial sets caches
    ] in
    observe-rtp_sets serial fed.0 bodies kept ∙ go fed.1
  where
    go :
        (found : Option ParameterSets)
        → (let kept : Caches = elim found [
          | none ↦ caches
          | some sets ↦ remember_ps_parameter_sets serial sets caches
        ] in
            kept.rtp_sets ≡ caches.rtp_sets)
    go none = refl
    go (some sets) = remember_ps-rtp_sets serial sets caches

observe-other :
    (serial serial' : ℕ) (inspector : Inspector) (bodies : List Bytes) (caches : Caches)
    → serial' ≢ serial
    → lookup serial (observe_ps_parameter_sets serial' inspector bodies caches).1.ps_sets
      ≡ lookup serial caches.ps_sets
unfolding observe_ps_parameter_sets
observe-other serial serial' inspector [] caches other = refl
observe-other serial serial' inspector (body ∷ bodies) caches other =
    let fed = ProgramStream.feed inspector body in
    let kept : Caches = elim fed.1 [
      | none ↦ caches
      | some sets ↦ remember_ps_parameter_sets serial' sets caches
    ] in
    observe-other serial serial' fed.0 bodies kept other ∙ go fed.1
  where
    go :
        (found : Option ParameterSets)
        → (let kept : Caches = elim found [
          | none ↦ caches
          | some sets ↦ remember_ps_parameter_sets serial' sets caches
        ] in
            lookup serial kept.ps_sets ≡ lookup serial caches.ps_sets)
    go none = refl
    go (some sets) = remember_ps-other serial serial' sets caches other

-- The RTP sets are those that `_decide` left.
pub after_decide-rtp_sets :
    (session : CameraSession) (pumped : Option (List Bytes)) (decided : PayloadPlan × Caches)
    → (after_decide session pumped decided).rtp_sets ≡ decided.1.rtp_sets
after_decide-rtp_sets session none decided = refl
after_decide-rtp_sets session (some bodies) decided = go (inspector_for decided.0.transport)
  where
    go :
        (inspector : Option Inspector)
        → (observe_session session.serial inspector (session.leading ++ bodies) decided.1).rtp_sets
          ≡ decided.1.rtp_sets
    go none = refl
    go (some inspector) =
        observe-rtp_sets session.serial inspector (session.leading ++ bodies) decided.1

after_decide-other :
    (serial : ℕ) (session : CameraSession) (pumped : Option (List Bytes))
    (decided : PayloadPlan × Caches)
    → session.serial ≢ serial
    → lookup serial (after_decide session pumped decided).ps_sets ≡ lookup serial decided.1.ps_sets
after_decide-other serial session none decided other = refl
after_decide-other serial session (some bodies) decided other =
    go (inspector_for decided.0.transport)
  where
    go :
        (inspector : Option Inspector)
        → lookup serial
            (observe_session session.serial inspector (session.leading ++ bodies) decided.1).ps_sets
          ≡ lookup serial decided.1.ps_sets
    go none = refl
    go (some inspector) =
        observe-other serial session.serial inspector (session.leading ++ bodies) decided.1 other

module _ (rtp_payload : Bytes → Option Bytes) where
  -- What a session does to the caches.
  abbrev pub run_camera_session : CameraSession → Caches → Caches
  run_camera_session session caches =
      after_decide session session.pumped (decide rtp_payload session.serial session.leading caches)

  -- Sessions one after the other.
  abbrev pub run_sessions : List CameraSession → Caches → Caches
  run_sessions [] caches = caches
  run_sessions (session ∷ sessions) caches =
      run_sessions sessions (run_camera_session session caches)

  -- A session of another camera leaves the entries of this one as they are.
  pub run_camera_session-other :
      (serial : ℕ) (session : CameraSession) (caches : Caches)
      → session.serial ≢ serial
      → entries_of serial (run_camera_session session caches) ≡ entries_of serial caches
  run_camera_session-other serial session caches other =
      let decided = decide rtp_payload session.serial session.leading caches in
      ap (λ sets. (lookup serial sets, lookup serial (run_camera_session session caches).ps_sets))
        (after_decide-rtp_sets session session.pumped decided)
      ∙ ap (λ found. (lookup serial decided.1.rtp_sets, found))
          (after_decide-other serial session session.pumped decided other)
      ∙ decide-other rtp_payload serial session.serial session.leading caches other
