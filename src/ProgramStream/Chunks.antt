-- ===== src/ProgramStream/Chunks.antt =====
-- About the chunks in which a program stream arrives.
use ezviz_stream_bridge.Prelude.{
  ℕ, zero, suc, ◌+◌, ◌-◌, ◌≤◌, ◌<◌, ◌≡◌, refl, sym, ap, ◌∙◌, Option, none, some, List, [], ◌∷◌,
  ◌++◌, Bytes, arith, length, drop, find, keep_last, length-append, ltb-false, append_assoc,
  append-nil, find-append, find-some, find-here, starts_with, starts_with-append, shift,
  find-none-append, length-drop, drop-drop, concat,
}
use mathlib.Core.Path.{subst}
use ezviz_stream_bridge.ProgramStream.{
  start_prefix, Inspector, Round, waits, goes_on, parse_code, parse_round, parse_loop, parse,
  receive, feed, max_pending, new_inspector,
}
use ezviz_stream_bridge.ProgramStream.Rounds.{more, drop-append}
use ezviz_stream_bridge.ProgramStream.Stable.{
  Stable, parse_code-Stable, parse_code-waits, goes_on≢waits, waits-injective,
}

round_found :
    (s : Inspector) (start : ℕ)
    → find start_prefix s.pending ≡ some start
    → parse_round s ≡ parse_code (record s { pending = drop start s.pending })
unfolding parse_round
round_found s start e = rw (e, parse_round) refl

round_missed :
    (s : Inspector)
    → find start_prefix s.pending ≡ none
    → parse_round s ≡ waits (record s { pending = keep_last 3 s.pending })
unfolding parse_round
round_missed s e = rw (e, parse_round) refl

found_more :
    (s : Inspector) (bytes : Bytes) (start : ℕ)
    → find start_prefix s.pending ≡ some start
    → parse_round (more s bytes)
      ≡ parse_code (more (record s { pending = drop start s.pending }) bytes)
found_more s bytes start e =
    let (here, room) = find-some start_prefix s.pending start e in
    round_found (more s bytes) start (find-append start_prefix s.pending bytes start e)
    ∙ ap (λ t. parse_code (record s { pending = t }))
        (drop-append start s.pending bytes (omega (arith, room)))

round-Stable :
    (s s' : Inspector)
    → parse_round s ≡ goes_on s'
    → Stable s s' (λ bytes. parse_round (more s bytes))
round-Stable s s' e = go (find start_prefix s.pending) refl
  where
    go :
        (o : Option ℕ)
        → find start_prefix s.pending ≡ o
        → Stable s s' (λ bytes. parse_round (more s bytes))
    go none f = absurd (goes_on≢waits _ _ (sym e ∙ round_missed s f))
    go (some start) f =
        let st = parse_code-Stable _ s' (sym (round_found s start f) ∙ e) in
        record {
          shorter = omega (arith, st.shorter, length-drop start s.pending);
          stable = λ bytes. found_more s bytes start f ∙ st.stable bytes;
        }

-- What a waiting round keeps is enough: with more bytes, the next round is the same.
record Resumes (s s' : Inspector) : Type 0 where
  kept : length s'.pending ≤ length s.pending
  same : (bytes : Bytes) → parse_round (more s' bytes) ≡ parse_round (more s bytes)

keep_last_twice :
    (p bytes : Bytes) → keep_last 3 (keep_last 3 p ++ bytes) ≡ keep_last 3 (p ++ bytes)
keep_last_twice p bytes =
    let d = length p - 3 in
    let cut : keep_last 3 p ++ bytes ≡ drop d (p ++ bytes) =
      sym (drop-append d p bytes (omega arith)) in
    let e : d + (length (drop d (p ++ bytes)) - 3) ≡ length (p ++ bytes) - 3 =
      omega (arith, length-drop d (p ++ bytes), length-append p bytes) in
    ap (keep_last 3) cut
    ∙ drop-drop d (length (drop d (p ++ bytes)) - 3) (p ++ bytes)
    ∙ ap (λ n. drop n (p ++ bytes)) e

missed_more :
    (s : Inspector) (bytes : Bytes)
    → find start_prefix s.pending ≡ none
    → parse_round (more (record s { pending = keep_last 3 s.pending }) bytes)
      ≡ parse_round (more s bytes)
missed_more s bytes e = go (find start_prefix (keep_last 3 s.pending ++ bytes)) refl
  where
    d : ℕ
    d = length s.pending - 3

    cut : keep_last 3 s.pending ++ bytes ≡ drop d (s.pending ++ bytes)
    cut = sym (drop-append d s.pending bytes (omega arith))

    found :
        find start_prefix (s.pending ++ bytes)
        ≡ shift d (find start_prefix (keep_last 3 s.pending ++ bytes))
    found = find-none-append start_prefix 3 s.pending bytes (omega arith) e

    go :
        (o : Option ℕ)
        → find start_prefix (keep_last 3 s.pending ++ bytes) ≡ o
        → parse_round (more (record s { pending = keep_last 3 s.pending }) bytes)
          ≡ parse_round (more s bytes)
    go none f =
        round_missed (more (record s { pending = keep_last 3 s.pending }) bytes) f
        ∙ ap (λ t. waits (record s { pending = t })) (keep_last_twice s.pending bytes)
        ∙ sym (round_missed (more s bytes) (found ∙ ap (shift d) f))
    go (some k) f =
        round_found (more (record s { pending = keep_last 3 s.pending }) bytes) k f
        ∙ ap (λ t. parse_code (record s { pending = t }))
            (ap (drop k) cut ∙ drop-drop d k (s.pending ++ bytes))
        ∙ sym (round_found (more s bytes) (d + k) (found ∙ ap (shift d) f))

round-Resumes : (s s' : Inspector) → parse_round s ≡ waits s' → Resumes s s'
round-Resumes s s' e = go (find start_prefix s.pending) refl
  where
    go : (o : Option ℕ) → find start_prefix s.pending ≡ o → Resumes s s'
    go none f =
        subst (λ t. Resumes s t) (waits-injective _ _ (sym (round_missed s f) ∙ e))
          (record {
            kept = omega (arith, length-drop (length s.pending - 3) s.pending);
            same = λ bytes. missed_more s bytes f;
          })
    go (some start) f =
        let (here, room) = find-some start_prefix s.pending start f in
        subst (λ t. Resumes s t) (parse_code-waits _ s' (sym (round_found s start f) ∙ e))
          (record {
            kept = omega (arith, length-drop start s.pending);
            same = λ bytes.
                round_found (more (record s { pending = drop start s.pending }) bytes) 0
                  (find-here start_prefix _ (starts_with-append start_prefix _ bytes here))
                ∙ sym (found_more s bytes start f);
          })

loop_waits : (fuel : ℕ) (s s' : Inspector) → parse_round s ≡ waits s' → parse_loop (suc fuel) s ≡ s'
unfolding parse_loop
loop_waits fuel s s' e = rw (e, parse_loop) refl

loop_goes_on :
    (fuel : ℕ) (s s' : Inspector)
    → parse_round s ≡ goes_on s'
    → parse_loop (suc fuel) s ≡ parse_loop fuel s'
unfolding parse_loop
loop_goes_on fuel s s' e = rw (e, parse_loop) refl

-- The loop ends by itself: any fuel above the size of the buffer gives the same state.
loop_enough :
    (n m : ℕ) (s : Inspector)
    → length s.pending < n
    → length s.pending < m
    → parse_loop n s ≡ parse_loop m s
loop_enough zero m s h k = absurd (omega arith)
loop_enough (suc n) zero s h k = absurd (omega arith)
loop_enough (suc n) (suc m) s h k = go (parse_round s) refl (λ s'. loop_enough n m s')
  where
    go :
        (r : Round)
        → parse_round s ≡ r
        → ((s' : Inspector)
            → length s'.pending < n
            → length s'.pending < m
            → parse_loop n s' ≡ parse_loop m s')
        → parse_loop (suc n) s ≡ parse_loop (suc m) s
    go (waits s') e again = loop_waits n s s' e ∙ sym (loop_waits m s s' e)
    go (goes_on s') e again =
        let less = (round-Stable s s' e).shorter in
        loop_goes_on n s s' e
        ∙ again s' (omega (arith, less)) (omega (arith, less))
        ∙ sym (loop_goes_on m s s' e)

loop_same_round :
    (fuel : ℕ) (s t : Inspector)
    → parse_round s ≡ parse_round t
    → parse_loop (suc fuel) s ≡ parse_loop (suc fuel) t
loop_same_round fuel s t e = go (parse_round t) refl
  where
    go : (r : Round) → parse_round t ≡ r → parse_loop (suc fuel) s ≡ parse_loop (suc fuel) t
    go (waits s') f = loop_waits fuel s s' (e ∙ f) ∙ sym (loop_waits fuel t s' f)
    go (goes_on s') f = loop_goes_on fuel s s' (e ∙ f) ∙ sym (loop_goes_on fuel t s' f)

loop-more :
    (n m : ℕ) (s : Inspector) (bytes : Bytes)
    → length s.pending < n
    → length s.pending + length bytes < m
    → (length (parse_loop n s).pending ≤ length s.pending)
      × (parse_loop m (more s bytes) ≡ parse_loop m (more (parse_loop n s) bytes))
loop-more zero m s bytes h k = absurd (omega arith)
loop-more (suc n) zero s bytes h k = absurd (omega arith)
loop-more (suc n) (suc m) s bytes h k = go (parse_round s) refl (λ s'. loop-more n (suc m) s' bytes)
  where
    go :
        (r : Round)
        → parse_round s ≡ r
        → ((s' : Inspector)
            → length s'.pending < n
            → length s'.pending + length bytes < suc m
            → (length (parse_loop n s').pending ≤ length s'.pending)
              × (parse_loop (suc m) (more s' bytes)
                  ≡ parse_loop (suc m) (more (parse_loop n s') bytes)))
        → (length (parse_loop (suc n) s).pending ≤ length s.pending)
          × (parse_loop (suc m) (more s bytes)
              ≡ parse_loop (suc m) (more (parse_loop (suc n) s) bytes))
    go (waits s') e again =
        let res = round-Resumes s s' e in
        let done = loop_waits n s s' e in
        (
          omega (arith, res.kept, ap (λ (t : Inspector). length t.pending) done),
          loop_same_round m (more s bytes) (more s' bytes) (sym (res.same bytes))
              ∙ ap (λ t. parse_loop (suc m) (more t bytes)) (sym done),
        )
    go (goes_on s') e again =
        let st = round-Stable s s' e in
        let less = st.shorter in
        let done = loop_goes_on n s s' e in
        let (kept, rest) = again s' (omega (arith, less)) (omega (arith, less)) in
        let sizes = length-append s'.pending bytes in
        (
          omega (arith, kept, less, ap (λ (t : Inspector). length t.pending) done),
          loop_goes_on m (more s bytes) (more s' bytes) (st.stable bytes)
              ∙ loop_enough m (suc m) (more s' bytes) (omega (arith, less, sizes))
                  (omega (arith, less, sizes))
              ∙ rest
              ∙ ap (λ t. parse_loop (suc m) (more t bytes)) (sym done),
        )

pub parse-kept : (s : Inspector) → length (parse s).pending ≤ length s.pending
unfolding parse
parse-kept s =
    (loop-more (suc (length s.pending)) (suc (length s.pending)) s [] (omega arith) (omega arith)).0

-- Parsing before more bytes come, or only once they are there, gives the same state.
pub parse-more :
    (s : Inspector) (bytes : Bytes) → parse (more s bytes) ≡ parse (more (parse s) bytes)
unfolding parse
parse-more s bytes =
    let sizes = length-append s.pending bytes in
    let kept = parse-kept s in
    let sizes' = length-append (parse s).pending bytes in
    (loop-more (suc (length s.pending)) (suc (length (s.pending ++ bytes))) s bytes (omega arith)
      (omega (arith, sizes))).1
    ∙ loop_enough (suc (length (s.pending ++ bytes))) (suc (length ((parse s).pending ++ bytes)))
        (more (parse s) bytes) (omega (arith, sizes, sizes', kept)) (omega arith)

-- The state after some chunks.
abbrev pub feed_chunks : Inspector → List Bytes → Inspector
feed_chunks s [] = s
feed_chunks s (chunk ∷ chunks) = feed_chunks (feed s chunk).0 chunks

-- No chunk makes the buffer overflow.
abbrev pub IsUnhurried : Inspector → List Bytes → Type 0
IsUnhurried s [] = Unit {0}
IsUnhurried s (chunk ∷ chunks) =
    (length s.pending + length chunk ≤ max_pending) × IsUnhurried (feed s chunk).0 chunks

feed-parse :
    (s : Inspector) (chunk : Bytes)
    → length s.pending + length chunk ≤ max_pending
    → (feed s chunk).0 ≡ parse (more s chunk)
unfolding feed receive
feed-parse s chunk fits =
    rw
      (ltb-false max_pending (length (s.pending ++ chunk))
        (omega (arith, length-append s.pending chunk)))
      refl

-- The state after some chunks is that of one parse of all their bytes, as long as its buffer does
-- not overflow on the way.
pub feed_chunks-concat :
    (s : Inspector) (chunks : List Bytes)
    → IsUnhurried s chunks
    → parse (feed_chunks s chunks) ≡ parse (more s (concat chunks))
feed_chunks-concat s [] h =
    ap parse (ap (λ t. record s { pending = t }) (sym (append-nil s.pending)))
feed_chunks-concat s (chunk ∷ chunks) (fits, rest) =
    feed_chunks-concat (feed s chunk).0 chunks rest
    ∙ ap (λ t. parse (more t (concat chunks))) (feed-parse s chunk fits)
    ∙ sym (parse-more (more s chunk) (concat chunks))
    ∙ ap (λ t. parse (record s { pending = t })) (append_assoc s.pending chunk (concat chunks))

parse_parsed : (s : Inspector) → parse (parse s) ≡ parse s
parse_parsed s =
    ap (λ t. parse (record (parse s) { pending = t })) (sym (append-nil (parse s).pending))
    ∙ sym (parse-more s [])
    ∙ ap (λ t. parse (record s { pending = t })) (append-nil s.pending)

feed_chunks_parsed :
    (s : Inspector) (chunks : List Bytes)
    → parse s ≡ s
    → parse (feed_chunks s chunks) ≡ feed_chunks s chunks
unfolding feed
feed_chunks_parsed s [] h = h
feed_chunks_parsed s (chunk ∷ chunks) h =
    feed_chunks_parsed (feed s chunk).0 chunks (parse_parsed (receive s chunk))

new_inspector_parsed : parse new_inspector ≡ new_inspector
unfolding parse parse_loop parse_round find starts_with
new_inspector_parsed = refl

-- However the same bytes are cut into chunks, a fresh inspector ends in the same state, and so with
-- the same parameter sets, as long as its buffer does not overflow on the way.
pub feed_chunks_same :
    (chunks chunks' : List Bytes)
    → concat chunks ≡ concat chunks'
    → IsUnhurried new_inspector chunks
    → IsUnhurried new_inspector chunks'
    → feed_chunks new_inspector chunks ≡ feed_chunks new_inspector chunks'
feed_chunks_same chunks chunks' e h h' =
    sym (feed_chunks_parsed new_inspector chunks new_inspector_parsed)
    ∙ feed_chunks-concat new_inspector chunks h
    ∙ ap (λ t. parse (more new_inspector t)) e
    ∙ sym (feed_chunks-concat new_inspector chunks' h')
    ∙ feed_chunks_parsed new_inspector chunks' new_inspector_parsed
