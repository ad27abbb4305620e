-- ===== src/Session/Plan/Observed.antt =====
-- What the packets of a session complete of the parameter sets of an MPEG-PS stream, and what the
-- cache then holds.
use ezviz_stream_bridge.Prelude.{
  ℕ, ◌≡◌, refl, sym, ap, ◌∙◌, Bool, true, false, ◌&&◌, Option, none, some, List, [], ◌∷◌, ◌++◌,
  Bytes, if◌then◌else◌,
}
use mathlib.Core.Option.{some-injective}
use ezviz_stream_bridge.ProgramStream.{
  ParameterSets, Inspector, new_inspector, all_names, make_prelude, snapshot, is_complete, nonempty,
  parse, receive,
}
use ezviz_stream_bridge.ProgramStream
use ezviz_stream_bridge.Session.Plan.{
  lookup, Caches, or_current, remember_ps_parameter_sets, inspect_packets,
  observe_ps_parameter_sets,
}
use ezviz_stream_bridge.Session.Plan.Others.{lookup-store}

-- What `snapshot` returns has a unit of each type.
snapshot-all_names :
    (s : Inspector) (sets : ParameterSets) → snapshot s ≡ some sets → all_names sets.sets ≡ true
unfolding snapshot
snapshot-all_names s sets e =
    go (all_names s.sets) (nonempty s.pack_header) s.video_stream_id refl e
  where
    go :
        (names header : Bool) (id : Option ℕ)
        → names ≡ all_names s.sets
        → (if names && header
            then elim id [
              | none ↦ none
              | some id ↦
                  some (record { stream_id = id; pack_header = s.pack_header; sets = s.sets })
            ]
            else none)
          ≡ some sets
        → all_names sets.sets ≡ true
    go true true (some id) named found =
        ap (λ t. all_names t.sets) (sym (some-injective _ _ found)) ∙ sym named
    go true true none named found = cc
    go true false id named found = cc
    go false header id named found = cc

-- All the sets that are seen so far.
abbrev pub IsWhole : Option ParameterSets → Type 0
IsWhole none = Unit
IsWhole (some sets) = all_names sets.sets ≡ true

or_current-IsWhole :
    (s : Inspector) (current : Option ParameterSets)
    → IsWhole current
    → IsWhole (or_current (snapshot s) current)
or_current-IsWhole s current whole = go (snapshot s) refl
  where
    go : (o : Option ParameterSets) → snapshot s ≡ o → IsWhole (or_current o current)
    go none e = whole
    go (some sets) e = snapshot-all_names s sets e

pub inspect_packets-IsWhole :
    (s : Inspector) (current : Option ParameterSets) (packets : List Bytes)
    → IsWhole current
    → IsWhole (inspect_packets s current packets)
unfolding inspect_packets ProgramStream.feed
inspect_packets-IsWhole s current [] whole = whole
inspect_packets-IsWhole s current (body ∷ packets) whole =
    let s' = parse (receive s body) in
    inspect_packets-IsWhole s' (or_current (snapshot s') current) packets
      (or_current-IsWhole s' current whole)

pub remembered :
    (serial : ℕ) (current : ParameterSets) (caches : Caches)
    → all_names current.sets ≡ true
    → lookup serial (remember_ps_parameter_sets serial current caches).ps_sets ≡ some current
unfolding remember_ps_parameter_sets
remembered serial current caches e = rw e (lookup-store serial current caches.ps_sets)

or_current-none : (found : Option ParameterSets) → or_current found none ≡ found
or_current-none none = refl
or_current-none (some sets) = refl

or_current_assoc :
    (a b c : Option ParameterSets) → or_current a (or_current b c) ≡ or_current (or_current a b) c
or_current_assoc none b c = refl
or_current_assoc (some sets) b c = refl

-- What the packets complete goes before what was there.
pub inspect_packets-or_current :
    (s : Inspector) (current : Option ParameterSets) (packets : List Bytes)
    → inspect_packets s current packets ≡ or_current (inspect_packets s none packets) current
unfolding inspect_packets ProgramStream.feed
inspect_packets-or_current s current [] = refl
inspect_packets-or_current s current (body ∷ packets) =
    let s' = parse (receive s body) in
    let rest = inspect_packets s' none packets in
    inspect_packets-or_current s' (or_current (snapshot s') current) packets
    ∙ or_current_assoc rest (snapshot s') current
    ∙ ap (λ found. or_current found current)
        (ap (or_current rest) (sym (or_current-none (snapshot s')))
          ∙ sym (inspect_packets-or_current s' (or_current (snapshot s') none) packets))

nothing_found :
    (later sooner : Option ParameterSets)
    → or_current later sooner ≡ none
    → (later ≡ none) × (sooner ≡ none)
nothing_found none sooner e = (refl, e)
nothing_found (some sets) sooner e = absurd cc

pub inspect_packets-append :
    (s : Inspector) (xs ys : List Bytes)
    → inspect_packets s none (xs ++ ys) ≡ none
    → inspect_packets s none xs ≡ none
unfolding inspect_packets
inspect_packets-append s [] ys nothing = refl
inspect_packets-append s (body ∷ xs) ys nothing =
    let fed = ProgramStream.feed s body in
    let current = or_current fed.1 none in
    let (later, sooner) =
      nothing_found _ current
        (sym (inspect_packets-or_current fed.0 current (xs ++ ys)) ∙ nothing) in
    inspect_packets-or_current fed.0 current xs
    ∙ ap (λ found. or_current found current) (inspect_packets-append fed.0 xs ys later)
    ∙ sooner

-- After the pump observed the bodies, the entry of the camera holds the last sets that they completed.
pub lookup-observe :
    (serial : ℕ) (s : Inspector) (bodies : List Bytes) (caches : Caches)
    (current : Option ParameterSets)
    → lookup serial caches.ps_sets ≡ current
    → lookup serial (observe_ps_parameter_sets serial s bodies caches).1.ps_sets
      ≡ inspect_packets s current bodies
unfolding observe_ps_parameter_sets inspect_packets ProgramStream.feed
lookup-observe serial s [] caches current e = e
lookup-observe serial s (body ∷ bodies) caches current e =
    let s' = parse (receive s body) in
    let kept : Caches = elim (snapshot s') [
      | none ↦ caches
      | some sets ↦ remember_ps_parameter_sets serial sets caches
    ] in
    lookup-observe serial s' bodies kept (or_current (snapshot s') current)
      (go s' (snapshot s') refl)
  where
    go :
        (s' : Inspector) (found : Option ParameterSets)
        → snapshot s' ≡ found
        → (let kept : Caches = elim found [
          | none ↦ caches
          | some sets ↦ remember_ps_parameter_sets serial sets caches
        ] in
            lookup serial kept.ps_sets ≡ or_current found current)
    go s' none found = e
    go s' (some sets) found = remembered serial sets caches (snapshot-all_names s' sets found)
