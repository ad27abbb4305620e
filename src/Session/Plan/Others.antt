-- ===== src/Session/Plan/Others.antt =====
-- What a session leaves of the entries of another camera.
use ezviz_stream_bridge.Prelude.{
  ℕ, ◌≡◌, ◌≢◌, refl, sym, ap, ◌∙◌, Bool, true, false, not, Option, none, some, List, Bytes, arith,
  inl, inr, Bool-cases, ◌==◌, ==→eq, if◌then◌else◌,
}
use ezviz_stream_bridge.Rtp.Constants.{Codec}
use ezviz_stream_bridge.Rtp.ParameterSets.{parameter_sets}
use ezviz_stream_bridge.ProgramStream.{ParameterSets, new_inspector, all_names}
use ezviz_stream_bridge.Session.Prefix.{Transport, mpeg_ps, mpeg_ts, rtp, unknown, some_bytes}
use ezviz_stream_bridge.Session.Plan.{
  Dict, lookup, store, OpenedWith, opened, Caches, remember_ps_parameter_sets, inspect_packets,
  decide_mpeg_ps, transport_of, named_codec, remember_parameter_sets, decide_named,
  decide_transport, decide, found_mpeg_ps,
}

pub lookup-store :
    {A : Type 0} (serial : ℕ) (value : A) (entries : Dict A)
    → lookup serial (store serial value entries) ≡ some value
unfolding lookup
lookup-store serial value entries = ground arith

lookup-store_other :
    {A : Type 0} (serial serial' : ℕ) (value : A) (entries : Dict A)
    → serial' ≢ serial
    → lookup serial (store serial' value entries) ≡ lookup serial entries
unfolding lookup
lookup-store_other serial serial' value entries other =
    let e : (serial == serial') ≡ false = elim (Bool-cases (serial == serial')) [
      | inl same ↦ absurd (other (sym (==→eq serial serial' same)))
      | inr apart ↦ apart
    ] in
    rw e refl

-- What holds on both branches of a test.
pub either : {A : Type 0} (P : A → Type 0) (b : Bool) (x y : A) → P x → P y → P (if b then x else y)
either P true x y p q = p
either P false x y p q = q

pub remember_ps-other :
    (serial serial' : ℕ) (current : ParameterSets) (caches : Caches)
    → serial' ≢ serial
    → lookup serial (remember_ps_parameter_sets serial' current caches).ps_sets
      ≡ lookup serial caches.ps_sets
unfolding remember_ps_parameter_sets
remember_ps-other serial serial' current caches other =
    either (λ c. lookup serial c.ps_sets ≡ lookup serial caches.ps_sets)
      (not (all_names current.sets)) caches
      (record caches { ps_sets = store serial' current caches.ps_sets }) refl
      (lookup-store_other serial serial' current caches.ps_sets other)

-- The entries of one camera.
abbrev pub entries_of : ℕ → Caches → Option OpenedWith × Option ParameterSets
entries_of serial caches = (lookup serial caches.rtp_sets, lookup serial caches.ps_sets)

pub remember_ps-rtp_sets :
    (serial : ℕ) (current : ParameterSets) (caches : Caches)
    → (remember_ps_parameter_sets serial current caches).rtp_sets ≡ caches.rtp_sets
unfolding remember_ps_parameter_sets
remember_ps-rtp_sets serial current caches =
    either (λ c. c.rtp_sets ≡ caches.rtp_sets) (not (all_names current.sets)) caches
      (record caches { ps_sets = store serial current caches.ps_sets }) refl refl

module _ (rtp_payload : Bytes → Option Bytes) where
  remember-other :
      (serial serial' : ℕ) (packets : List Bytes) (codec : Codec) (pt : Option ℕ) (caches : Caches)
      → serial' ≢ serial
      → entries_of serial (remember_parameter_sets rtp_payload serial' packets codec pt caches)
        ≡ entries_of serial caches
  unfolding remember_parameter_sets
  remember-other serial serial' packets codec none caches other = refl
  remember-other serial serial' packets codec (some pt) caches other =
      let prelude = parameter_sets rtp_payload packets codec pt in
      either (λ c. entries_of serial c ≡ entries_of serial caches) (not (some_bytes prelude)) caches
        (record caches { rtp_sets = store serial' (opened codec pt prelude) caches.rtp_sets }) refl
        (ap (λ o. (o, lookup serial caches.ps_sets))
          (lookup-store_other serial serial' (opened codec pt prelude) caches.rtp_sets other))

  named-other :
      (serial serial' : ℕ) (packets : List Bytes) (caches : Caches)
      (named : Option (Codec × Option ℕ))
      → serial' ≢ serial
      → entries_of serial (decide_named rtp_payload serial' packets caches named).1
        ≡ entries_of serial caches
  named-other serial serial' packets caches none other = refl
  named-other serial serial' packets caches (some (codec, pt)) other =
      remember-other serial serial' packets codec pt caches other

  found-other :
      (serial serial' : ℕ) (packets : List Bytes) (caches : Caches) (found : Option ParameterSets)
      → serial' ≢ serial
      → entries_of serial (found_mpeg_ps serial' packets caches found).1 ≡ entries_of serial caches
  found-other serial serial' packets caches none other = refl
  found-other serial serial' packets caches (some current) other =
      ap
        (λ c. (
          lookup serial c,
          lookup serial (remember_ps_parameter_sets serial' current caches).ps_sets,
        ))
        (remember_ps-rtp_sets serial' current caches)
      ∙ ap (λ o. (lookup serial caches.rtp_sets, o))
          (remember_ps-other serial serial' current caches other)

  transport-other :
      (serial serial' : ℕ) (packets : List Bytes) (caches : Caches) (transport : Transport)
      → serial' ≢ serial
      → entries_of serial (decide_transport rtp_payload serial' packets caches transport).1
        ≡ entries_of serial caches
  unfolding decide_mpeg_ps
  transport-other serial serial' packets caches mpeg_ps other =
      found-other serial serial' packets caches (inspect_packets new_inspector none packets) other
  transport-other serial serial' packets caches rtp other =
      named-other serial serial' packets caches (named_codec rtp_payload packets) other
  transport-other serial serial' packets caches mpeg_ts other = refl
  transport-other serial serial' packets caches unknown other = refl

  -- A session of another camera leaves the entries of this one as they are.
  pub decide-other :
      (serial serial' : ℕ) (packets : List Bytes) (caches : Caches)
      → serial' ≢ serial
      → entries_of serial (decide rtp_payload serial' packets caches).1 ≡ entries_of serial caches
  unfolding decide
  decide-other serial serial' packets caches other =
      transport-other serial serial' packets caches (transport_of packets) other
