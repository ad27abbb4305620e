-- ===== src/Session/Prefix/Classify.antt =====
-- About `classify_payload`: the evidence for each transport.
use ezviz_stream_bridge.Prelude.{
  ℕ, zero, suc, ◌+◌, ◌-◌, ◌≤◌, ◌<◌, ◌≡◌, ◌≢◌, ◌⊎◌, refl, sym, ap, ◌∙◌, Bool, true, false, Option,
  none, some, [], ◌∷◌, Bytes, arith, length, drop, byte_at, ltb, ◌==◌, bit_and, find, find_from,
  find-some, find_first, find_nowhere, starts_with, shift, Bool-cases, inl, inr, if◌then◌else◌,
  length-drop, drop-drop, ltb→lt, ltb_false→le, shift-zero, ◌&&◌,
}
use mathlib.Core.Path.{subst}
use mathlib.Core.Option.{some-injective}
use ezviz_stream_bridge.Session.Prefix.{
  ps_pack_start, ts_sync_byte, Transport, mpeg_ps, mpeg_ts, rtp, unknown, sync_repeats,
  looks_like_mpeg_ts, find_sync, classify_payload,
}

-- The sync byte at this place and at the two places 188 and 376 bytes further.
abbrev pub IsGrid : Bytes → ℕ → Type 0
IsGrid bytes start =
    (start + 376 < length bytes)
    × (byte_at bytes start ≡ 0x47)
    × (byte_at bytes (start + 188) ≡ 0x47)
    × (byte_at bytes (start + 376) ≡ 0x47)

-- What stands behind a classification.
pub data Evidence (bytes : Bytes) : Transport × Option ℕ → Type 0 where
  has_pack :
      {pack : ℕ}
      → starts_with ps_pack_start (drop pack bytes) ≡ true
      → Evidence bytes (mpeg_ps, some pack)
  has_grid :
      {sync : ℕ}
      → find ps_pack_start bytes ≡ none
      → IsGrid bytes sync
      → Evidence bytes (mpeg_ts, some sync)
  has_version :
      find ps_pack_start bytes ≡ none
      → ((start : ℕ) → ¬ IsGrid bytes start)
      → 1 ≤ length bytes
      → bit_and (byte_at bytes 0) 0xC0 ≡ 0x80
      → Evidence bytes (rtp, some 0)
  has_nothing :
      find ps_pack_start bytes ≡ none
      → ((start : ℕ) → ¬ IsGrid bytes start)
      → (length bytes ≡ 0) ⊎ (bit_and (byte_at bytes 0) 0xC0 ≢ 0x80)
      → Evidence bytes (unknown, none)

looks_like-IsGrid :
    (bytes : Bytes) (start : ℕ)
    → byte_at bytes start ≡ 0x47
    → looks_like_mpeg_ts bytes start ≡ true
    → IsGrid bytes start
unfolding looks_like_mpeg_ts sync_repeats
looks_like-IsGrid bytes start here e = ground arith

grid-looks_like :
    (bytes : Bytes) (start : ℕ) → IsGrid bytes start → looks_like_mpeg_ts bytes start ≡ true
unfolding looks_like_mpeg_ts sync_repeats
grid-looks_like bytes start (room, here, second, third) = ground arith

byte_at-drop : (bytes : Bytes) (n : ℕ) → byte_at (drop n bytes) 0 ≡ byte_at bytes n
byte_at-drop [] zero = refl
byte_at-drop [] (suc n) = refl
byte_at-drop (b ∷ bytes) zero = refl
byte_at-drop (b ∷ bytes) (suc n) = byte_at-drop bytes n

starts-byte_at :
    (bytes : Bytes) → starts_with (ts_sync_byte ∷ []) bytes ≡ true → byte_at bytes 0 ≡ 0x47
unfolding starts_with
starts-byte_at [] h = absurd (ground arith)
starts-byte_at (b ∷ bytes) h = ground arith

byte_at-starts :
    (bytes : Bytes) → byte_at bytes 0 ≡ 0x47 → starts_with (ts_sync_byte ∷ []) bytes ≡ true
unfolding starts_with
byte_at-starts [] h = absurd (omega arith)
byte_at-starts (b ∷ bytes) h = ground arith

not_sync :
    (bytes : Bytes) (start : ℕ)
    → starts_with (ts_sync_byte ∷ []) (drop start bytes) ≡ false
    → ¬ IsGrid bytes start
not_sync bytes start h (room, here, second, third) =
    let e = byte_at-starts (drop start bytes) (byte_at-drop bytes start ∙ here) in
    absurd (ground (arith, e))

-- The search from `position` on, after which no place is left out.
record Searched (bytes : Bytes) (position : ℕ) (o : Option ℕ) : Type 0 where
  -- What was found is a sync byte at or behind `position`.
  found :
      (sync : ℕ)
      → o ≡ some sync
      → (position ≤ sync) × (sync < length bytes) × (byte_at bytes sync ≡ 0x47)
  -- There is no sync byte between.
  passed :
      (start : ℕ)
      → position ≤ start
      → ((sync : ℕ) → o ≡ some sync → start < sync)
      → ¬ IsGrid bytes start

find_from-Searched :
    (bytes : Bytes) (position : ℕ)
    → Searched bytes position (find_from (ts_sync_byte ∷ []) bytes position)
find_from-Searched bytes position = go (find (ts_sync_byte ∷ []) (drop position bytes)) refl
  where
    at :
        (start : ℕ)
        → position ≤ start
        → drop (start - position) (drop position bytes) ≡ drop start bytes
    at start le =
        let e : position + (start - position) ≡ start = omega arith in
        drop-drop position (start - position) bytes ∙ ap (λ n. drop n bytes) e

    go :
        (o : Option ℕ)
        → find (ts_sync_byte ∷ []) (drop position bytes) ≡ o
        → Searched bytes position (shift position o)
    go none e = record {
      found = λ sync f. absurd (ground arith);
      passed = λ start le before. not_sync bytes start (
          ap (starts_with (ts_sync_byte ∷ [])) (sym (at start le))
          ∙ find_nowhere (ts_sync_byte ∷ []) (drop position bytes) (start - position) (omega arith)
              e);
    }
    go (some k) e =
        let (here, room) = find-some (ts_sync_byte ∷ []) (drop position bytes) k e in
        let size = length-drop position bytes in
        record {
          found = λ sync f.
              let s : position + k ≡ sync = ground arith in
              let byte : byte_at bytes (position + k) ≡ 0x47 =
                sym (byte_at-drop bytes (position + k))
                ∙ ap (λ t. byte_at t 0) (sym (drop-drop position k bytes))
                ∙ starts-byte_at (drop k (drop position bytes)) here in
              (omega (arith, s), omega (arith, s, room, size), ap (byte_at bytes) (sym s) ∙ byte);
          passed = λ start le before.
              let less = before (position + k) refl in
              not_sync bytes start (
                ap (starts_with (ts_sync_byte ∷ [])) (sym (at start le))
                ∙ find_first (ts_sync_byte ∷ []) (drop position bytes) k (start - position) e
                    (omega (arith, less)));
        }

-- The search over all sync bytes from `position` on: it returns a grid, or there is none.
find_sync_lem :
    (fuel : ℕ) (bytes : Bytes) (position : ℕ) (o : Option ℕ)
    → Searched bytes position o
    → length bytes < position + fuel
    → ((start : ℕ) → start < position → ¬ IsGrid bytes start)
    → ((sync : ℕ) → find_sync fuel bytes o ≡ some sync → IsGrid bytes sync)
      × (find_sync fuel bytes o ≡ none → (start : ℕ) → ¬ IsGrid bytes start)
unfolding find_sync
find_sync_lem fuel bytes position none searched enough before = (
  λ sync e. absurd (ground arith),
  λ e start. elim (Bool-cases (ltb start position)) [
    | inl less ↦ before start (ltb→lt _ _ less)
    | inr le ↦ searched.passed start (ltb_false→le _ _ le) (λ sync f. absurd (ground arith))
  ],
)
find_sync_lem zero bytes position (some sync) searched enough before =
    absurd (omega (arith, searched.found sync refl, enough))
find_sync_lem (suc fuel) bytes position (some sync) searched enough before =
    let (le, room, here) = searched.found sync refl in
    elim (Bool-cases (looks_like_mpeg_ts bytes sync)) [
      | inl grid ↦ rw grid (
        λ found e.
            subst (λ t. IsGrid bytes t) (some-injective _ _ e)
              (looks_like-IsGrid bytes sync here grid),
        λ e. absurd (ground arith),
      )
      | inr no_grid ↦ rw no_grid (
          find_sync_lem fuel bytes (sync + 1) (find_from (ts_sync_byte ∷ []) bytes (sync + 1))
            (find_from-Searched bytes (sync + 1)) (omega (arith, le))
            (λ start less. elim (Bool-cases (ltb start position)) [
              | inl early ↦ before start (ltb→lt _ _ early)
              | inr later ↦ elim (Bool-cases (ltb start sync)) [
                | inl between ↦ searched.passed start (ltb_false→le _ _ later) (λ s e.
                    let q : sync ≡ s = some-injective _ _ e in omega (arith, q, ltb→lt _ _ between))
                | inr last ↦
                    let q : start ≡ sync = omega (arith, ltb_false→le _ _ last) in
                    λ g.
                      let t = grid-looks_like bytes sync (subst (λ t. IsGrid bytes t) q g) in
                      absurd (ground (arith, t))
              ]
            ]))
    ]

no_packs :
    (bytes : Bytes)
    → find ps_pack_start bytes ≡ none
    → Evidence bytes (elim (find_sync (suc (length bytes)) bytes (find (ts_sync_byte ∷ []) bytes)) [
      | some sync ↦ (mpeg_ts, some sync)
      | none ↦
          if ltb 0 (length bytes) && bit_and (byte_at bytes 0) 0xC0 == 0x80
          then (rtp, some 0)
          else (unknown, none)
    ])
no_packs bytes no_pack =
    go (find_sync (suc (length bytes)) bytes (find (ts_sync_byte ∷ []) bytes)) refl
  where
    first : find_from (ts_sync_byte ∷ []) bytes 0 ≡ find (ts_sync_byte ∷ []) bytes
    first = shift-zero (find (ts_sync_byte ∷ []) bytes)

    all :
        ((sync : ℕ)
          → find_sync (suc (length bytes)) bytes (find (ts_sync_byte ∷ []) bytes) ≡ some sync
          → IsGrid bytes sync)
        × (find_sync (suc (length bytes)) bytes (find (ts_sync_byte ∷ []) bytes) ≡ none
            → (start : ℕ) → ¬ IsGrid bytes start)
    all =
        find_sync_lem (suc (length bytes)) bytes 0 (find (ts_sync_byte ∷ []) bytes)
          (subst (λ o. Searched bytes 0 o) first (find_from-Searched bytes 0)) (omega arith)
          (λ start less. absurd (omega arith))

    version :
        (b : Bool)
        → (ltb 0 (length bytes) && bit_and (byte_at bytes 0) 0xC0 == 0x80) ≡ b
        → ((start : ℕ) → ¬ IsGrid bytes start)
        → Evidence bytes (if b then (rtp, some 0) else (unknown, none))
    version true e none_there = has_version no_pack none_there (ground arith) (ground arith)
    version false e none_there = has_nothing no_pack none_there (ground arith)

    go :
        (o : Option ℕ)
        → find_sync (suc (length bytes)) bytes (find (ts_sync_byte ∷ []) bytes) ≡ o
        → Evidence bytes (elim o [
          | some sync ↦ (mpeg_ts, some sync)
          | none ↦
              if ltb 0 (length bytes) && bit_and (byte_at bytes 0) 0xC0 == 0x80
              then (rtp, some 0)
              else (unknown, none)
        ])
    go (some sync) e = has_grid no_pack (all.0 sync e)
    go none e = version _ refl (all.1 e)

-- Every classification has its evidence, and the search behind it misses nothing: MPEG-PS has the
-- pack start code at the offset; MPEG-TS has the sync byte at the offset and twice more at 188
-- bytes, and no pack start code anywhere; RTP has its version in the first byte, and neither of the
-- other signatures anywhere; and where nothing is named, none of the three is there.
pub classify_payload_lem : (bytes : Bytes) → Evidence bytes (classify_payload bytes)
unfolding classify_payload
classify_payload_lem bytes = go (find ps_pack_start bytes) refl
  where
    go :
        (o : Option ℕ)
        → find ps_pack_start bytes ≡ o
        → Evidence bytes (elim o [
          | some pack ↦ (mpeg_ps, some pack)
          | none ↦ elim (find_sync (suc (length bytes)) bytes (find (ts_sync_byte ∷ []) bytes)) [
            | some sync ↦ (mpeg_ts, some sync)
            | none ↦
                if ltb 0 (length bytes) && bit_and (byte_at bytes 0) 0xC0 == 0x80
                then (rtp, some 0)
                else (unknown, none)
          ]
        ])
    go (some pack) e = has_pack (find-some ps_pack_start bytes pack e).0
    go none e = no_packs bytes e
