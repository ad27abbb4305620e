-- ===== src/ProgramStream/Stable.antt =====
-- About one round of `_parse` at a start code, with more bytes behind its buffer.
use ezviz_stream_bridge.Prelude.{
  ℕ, ◌≤◌, ◌<◌, ◌≡◌, ◌≢◌, refl, sym, ap, ◌∙◌, Bool, true, false, Option, none, some, [], ◌∷◌, ◌++◌,
  Bytes, arith, length, take, drop, byte_at, ltb, ◌==◌, length-append, Bool-cases, inl, inr,
  ltb_false→le, ltb-false, if◌then◌else◌, length-drop,
}
use mathlib.Core.Path.{ap₂}
use ezviz_stream_bridge.ProgramStream.{
  Inspector, is_video, pack_size, pes_size, take_pes, feed_payload, feed_elementary, pes_payload,
  Round, waits, goes_on, when_whole, parse_code, pack_code, is_pes_code,
}
use ezviz_stream_bridge.ProgramStream.Rounds.{
  more, take-append, drop-append, byte_at-append, pack_size-append, pack_size_large,
  pes_size-append, pes_size_large,
}

pub goes_on≢waits : (s s' : Inspector) → goes_on s ≢ waits s'
goes_on≢waits s s' e = ground arith

pub waits-injective : (s s' : Inspector) → waits s ≡ waits s' → s ≡ s'
waits-injective s s' e = ground arith

-- A packet changes nothing of the buffer, and does not look at it.
feed_payload-more :
    (s : Inspector) (payload rest rest' : Bytes)
    → record (feed_payload (record s { pending = rest' }) payload) { pending = rest }
      ≡ record (feed_payload s payload) { pending = rest }
unfolding feed_elementary
feed_payload-more s [] rest rest' = refl
feed_payload-more s (b ∷ payload) rest rest' = refl

take_pes-more :
    (s : Inspector) (code : ℕ) (packet rest rest' : Bytes)
    → record (take_pes (record s { pending = rest' }) code packet) { pending = rest }
      ≡ record (take_pes s code packet) { pending = rest }
unfolding take_pes
take_pes-more s code packet rest rest' = go (is_video code)
  where
    go :
        (b : Bool)
        → record (if b
            then feed_payload
                (record s { pending = rest'; video_stream_id = some code })
                (pes_payload packet)
            else record s { pending = rest' }) { pending = rest }
          ≡ record (if b
              then feed_payload (record s { video_stream_id = some code }) (pes_payload packet)
              else s) { pending = rest }
    go true =
        feed_payload-more (record s { video_stream_id = some code }) (pes_payload packet) rest rest'
    go false = refl

-- What a round that goes on leaves, and that more bytes behind it stay behind it.
pub record Stable (s s' : Inspector) (round : Bytes → Round) : Type 0 where
  pub shorter : length s'.pending < length s.pending
  pub stable : (bytes : Bytes) → round bytes ≡ goes_on (more s' bytes)

when_whole-Stable :
    (s s' : Inspector) (o : Option ℕ) (size : Bytes → Option ℕ) (whole : ℕ → Inspector)
    (whole' : Bytes → ℕ → Inspector)
    → when_whole s o whole ≡ goes_on s'
    → ((n : ℕ) → o ≡ some n → (1 ≤ n) × ((bytes : Bytes) → size bytes ≡ some n))
    → ((n : ℕ) → (whole n).pending ≡ drop n s.pending)
    → ((n : ℕ) (bytes : Bytes) → n ≤ length s.pending → whole' bytes n ≡ more (whole n) bytes)
    → Stable s s' (λ bytes. when_whole (more s bytes) (size bytes) (whole' bytes))
when_whole-Stable s s' none size whole whole' e sized cut same = absurd (ground arith)
when_whole-Stable s s' (some n) size whole whole' e sized cut same =
    elim (Bool-cases (ltb (length s.pending) n)) [
      | inl short ↦ absurd (ground arith)
      | inr whole_packet ↦
          let fits : n ≤ length s.pending = ltb_false→le _ _ whole_packet in
          let (large, sizes) = sized n refl in
          let done : whole n ≡ s' = ground arith in
          record {
            shorter = omega (
              arith,
              ap (λ (t : Inspector). length t.pending) done,
              ap length (cut n),
              length-drop n s.pending,
            );
            stable = λ bytes.
                let enough : ltb (length (s.pending ++ bytes)) n ≡ false =
                  ltb-false _ _ (omega (arith, length-append s.pending bytes)) in
                ap (λ o. when_whole (more s bytes) o (whole' bytes)) (sizes bytes)
                ∙ rw enough (ap goes_on (same n bytes fits ∙ ap (λ t. more t bytes) done));
          }
    ]

drop_header-Stable :
    (s s' : Inspector)
    → 4 ≤ length s.pending
    → goes_on (record s { pending = drop 4 s.pending }) ≡ goes_on s'
    → Stable s s' (λ bytes. goes_on (record s { pending = drop 4 (s.pending ++ bytes) }))
drop_header-Stable s s' long e =
    let done : record s { pending = drop 4 s.pending } ≡ s' = ground arith in
    record {
      shorter =
          omega (arith, ap (λ (t : Inspector). length t.pending) done, length-drop 4 s.pending);
      stable = λ bytes.
          ap (λ t. goes_on (record s { pending = t })) (drop-append 4 s.pending bytes long)
          ∙ ap (λ t. goes_on (more t bytes)) done;
    }

pack-Stable :
    (s s' : Inspector)
    → when_whole s
        (pack_size s.pending)
        (λ size. record s { pack_header = take size s.pending; pending = drop size s.pending })
      ≡ goes_on s'
    → Stable s s' (λ bytes. when_whole (more s bytes) (pack_size (s.pending ++ bytes)) (λ size.
      record s {
        pack_header = take size (s.pending ++ bytes);
        pending = drop size (s.pending ++ bytes);
      }))
pack-Stable s s' e =
    when_whole-Stable s s' (pack_size s.pending) (λ bytes. pack_size (s.pending ++ bytes)) _ _ e
      (λ n f.
        let large = pack_size_large s.pending n f in
        (omega (arith, large), λ bytes. pack_size-append s.pending bytes n f))
      (λ n. refl)
      (λ n bytes fits.
        ap₂ (λ t u. record s { pack_header = t; pending = u }) (take-append n s.pending bytes fits)
          (drop-append n s.pending bytes fits))

pes-Stable :
    (s s' : Inspector) (code : ℕ)
    → when_whole s (pes_size s.pending code) (λ total.
      record (take_pes s code (take total s.pending)) { pending = drop total s.pending })
      ≡ goes_on s'
    → Stable s s' (λ bytes. when_whole (more s bytes) (pes_size (s.pending ++ bytes) code) (λ total.
      record (take_pes (more s bytes) code (take total (s.pending ++ bytes))) {
        pending = drop total (s.pending ++ bytes);
      }))
pes-Stable s s' code e =
    when_whole-Stable s s' (pes_size s.pending code) (λ bytes. pes_size (s.pending ++ bytes) code) _
      _ e
      (λ n f.
        let large = pes_size_large s.pending code n f in
        (omega (arith, large), λ bytes. pes_size-append s.pending bytes code n f))
      (λ n. refl)
      (λ n bytes fits.
        ap₂ (λ t u. record (take_pes (more s bytes) code t) { pending = u })
          (take-append n s.pending bytes fits) (drop-append n s.pending bytes fits)
        ∙ take_pes-more s code (take n s.pending) (drop n s.pending ++ bytes) (s.pending ++ bytes))

-- `parse_code` once there are four bytes, by the three tests of its code.
abbrev by_code : Inspector → ℕ → Bool → Bool → Bool → Round
by_code s code true ends pes =
    when_whole s (pack_size s.pending)
      (λ size. record s { pack_header = take size s.pending; pending = drop size s.pending })
by_code s code false true pes = goes_on (record s { pending = drop 4 s.pending })
by_code s code false false true =
    when_whole s (pes_size s.pending code)
      (λ total. record (take_pes s code (take total s.pending)) { pending = drop total s.pending })
by_code s code false false false = goes_on (record s { pending = drop 4 s.pending })

parse_code-by_code :
    (s : Inspector) (code : ℕ)
    → 4 ≤ length s.pending
    → byte_at s.pending 3 ≡ code
    → parse_code s ≡ by_code s code (code == pack_code) (code == 0xB9) (is_pes_code code)
unfolding parse_code
parse_code-by_code s code long e =
    rw (ltb-false _ _ long) (rw e (go (code == pack_code) (code == 0xB9) (is_pes_code code)))
  where
    go :
        (pack ends pes : Bool)
        → (if pack
            then when_whole s (pack_size s.pending) (λ size. record s {
              pack_header = take size s.pending;
              pending = drop size s.pending;
            })
            else if ends
            then goes_on (record s { pending = drop 4 s.pending })
            else if pes
            then when_whole s (pes_size s.pending code) (λ total.
              record (take_pes s code (take total s.pending)) { pending = drop total s.pending })
            else goes_on (record s { pending = drop 4 s.pending }))
          ≡ by_code s code pack ends pes
    go true ends pes = refl
    go false true pes = refl
    go false false true = refl
    go false false false = refl

by_code-Stable :
    (s s' : Inspector) (code : ℕ) (pack ends pes : Bool)
    → 4 ≤ length s.pending
    → by_code s code pack ends pes ≡ goes_on s'
    → Stable s s' (λ bytes. by_code (more s bytes) code pack ends pes)
by_code-Stable s s' code true ends pes long e = pack-Stable s s' e
by_code-Stable s s' code false true pes long e = drop_header-Stable s s' long e
by_code-Stable s s' code false false true long e = pes-Stable s s' code e
by_code-Stable s s' code false false false long e = drop_header-Stable s s' long e

short_waits : (s : Inspector) → ltb (length s.pending) 4 ≡ true → parse_code s ≡ waits s
unfolding parse_code
short_waits s e = rw e refl

pub parse_code-Stable :
    (s s' : Inspector)
    → parse_code s ≡ goes_on s'
    → Stable s s' (λ bytes. parse_code (more s bytes))
parse_code-Stable s s' e = elim (Bool-cases (ltb (length s.pending) 4)) [
  | inl short ↦ absurd (goes_on≢waits _ _ (sym e ∙ short_waits s short))
  | inr enough ↦
      let long = ltb_false→le (length s.pending) 4 enough in
      let code = byte_at s.pending 3 in
      let st =
        by_code-Stable s s' code (code == pack_code) (code == 0xB9) (is_pes_code code) long
          (sym (parse_code-by_code s code long refl) ∙ e) in
      record {
        shorter = st.shorter;
        stable = λ bytes.
            parse_code-by_code (more s bytes) code (omega (arith, length-append s.pending bytes))
              (byte_at-append s.pending bytes 3 long)
            ∙ st.stable bytes;
      }
]

-- A round that waits leaves the state as it was.
when_whole-waits :
    (s s' : Inspector) (o : Option ℕ) (whole : ℕ → Inspector)
    → when_whole s o whole ≡ waits s'
    → s ≡ s'
when_whole-waits s s' none whole e = ground arith
when_whole-waits s s' (some n) whole e = ground arith

by_code-waits :
    (s s' : Inspector) (code : ℕ) (pack ends pes : Bool)
    → by_code s code pack ends pes ≡ waits s'
    → s ≡ s'
by_code-waits s s' code true ends pes e = when_whole-waits s s' _ _ e
by_code-waits s s' code false true pes e = absurd (goes_on≢waits _ _ e)
by_code-waits s s' code false false true e = when_whole-waits s s' _ _ e
by_code-waits s s' code false false false e = absurd (goes_on≢waits _ _ e)

pub parse_code-waits : (s s' : Inspector) → parse_code s ≡ waits s' → s ≡ s'
parse_code-waits s s' e = elim (Bool-cases (ltb (length s.pending) 4)) [
  | inl short ↦ waits-injective _ _ (sym (short_waits s short) ∙ e)
  | inr enough ↦
      by_code-waits s s' _ _ _ _
        (sym (parse_code-by_code s _ (ltb_false→le (length s.pending) 4 enough) refl) ∙ e)
]
