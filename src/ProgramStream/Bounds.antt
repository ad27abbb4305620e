-- ===== src/ProgramStream/Bounds.antt =====
-- About the memory of `ProgramStreamInspector` on any input.
use ezviz_stream_bridge.Prelude.{
  ℕ, zero, suc, ◌+◌, ◌-◌, ◌≤◌, ◌<◌, ◌≡◌, refl, Bool, true, false, Option, none, some, List, [], ◌∷◌,
  ◌++◌, Bytes, arith, length, take, drop, byte_at, slice, ltb, find, find_from, find-some,
  keep_last, length-drop, Bool-cases, inl, inr, if◌then◌else◌, ltb_false→le,
}
use ezviz_stream_bridge.ProgramStream.{
  start_prefix, max_pending, max_parameter_set, SetName, vps, sps, pps, Sets, Inspector,
  new_inspector, inspect_nal, Scanned, clear_long, scan_elementary, feed_elementary, feed_payload,
  pes_payload, is_video, take_pes, Round, waits, goes_on, when_whole, pack_size, pes_size,
  parse_code, parse_round, parse_loop, parse, receive, feed, flush_elementary, flush,
}
use ezviz_stream_bridge.ProgramStream.Chunks.{parse-kept}
use ezviz_stream_bridge.ProgramStream.Rounds.{find_from_bounds}
use ezviz_stream_bridge.ProgramStream.Cache.{IsGroup, IsCache, inspect_nal-IsCache}

-- What the scan of the elementary stream leaves.
pub record IsScanned (scanned : Scanned) : Type 0 where
  pub short : length scanned.rest ≤ max_parameter_set
  pub cache : IsCache scanned.cached

clear_long_short : (bytes : Bytes) → length (clear_long bytes) ≤ max_parameter_set
clear_long_short bytes = ground arith

scan_elementary-IsScanned :
    (fuel : ℕ) (elementary : Bytes) (sets : Sets)
    → length elementary < fuel
    → IsCache sets
    → IsScanned (scan_elementary fuel elementary sets)
unfolding scan_elementary
scan_elementary-IsScanned zero elementary sets enough h = absurd (omega arith)
scan_elementary-IsScanned (suc fuel) elementary sets enough h =
    go (find start_prefix elementary) refl
      (λ rest sets' short h'. scan_elementary-IsScanned fuel rest sets' short h')
  where
    Again : Type 0
    Again =
        (rest : Bytes) (sets' : Sets)
        → length rest < fuel
        → IsCache sets'
        → IsScanned (scan_elementary fuel rest sets')

    second_found :
        (first : ℕ)
        → find start_prefix elementary ≡ some first
        → (o : Option ℕ) → find_from start_prefix elementary (first + 3) ≡ o
        → Again
        → IsScanned (elim o [
          | none ↦ record { rest = clear_long (drop first elementary); cached = sets }
          | some second ↦
              scan_elementary fuel
                (drop second elementary)
                (inspect_nal sets (slice elementary (first + 3) second))
        ])
    second_found first e none f again = record {
      short = clear_long_short (drop first elementary);
      cache = h;
    }
    second_found first e (some second) f again =
        let (here, room) = find-some start_prefix elementary first e in
        let (past, fits) = find_from_bounds elementary (first + 3) second room f in
        again (drop second elementary) _ (omega (arith, past, fits, length-drop second elementary))
          (inspect_nal-IsCache sets (slice elementary (first + 3) second) h)

    go :
        (o : Option ℕ)
        → find start_prefix elementary ≡ o
        → Again
        → IsScanned (elim o [
          | none ↦ record { rest = clear_long elementary; cached = sets }
          | some first ↦ elim (find_from start_prefix elementary (first + 3)) [
            | none ↦ record { rest = clear_long (drop first elementary); cached = sets }
            | some second ↦
                scan_elementary fuel
                  (drop second elementary)
                  (inspect_nal sets (slice elementary (first + 3) second))
          ]
        ])
    go none e again = record { short = clear_long_short elementary; cache = h }
    go (some first) e again =
        second_found first e (find_from start_prefix elementary (first + 3)) refl again

-- The parts of the state that a packet can change.
pub record IsTidy (s : Inspector) : Type 0 where
  pub elementary_short : length s.elementary ≤ max_parameter_set
  pub cache : IsCache s.sets

feed_elementary-IsTidy :
    (s : Inspector) (payload : Bytes) → IsTidy s → IsTidy (feed_elementary s payload)
unfolding feed_elementary
feed_elementary-IsTidy s payload h =
    let elementary = s.elementary ++ payload in
    let scanned =
      scan_elementary-IsScanned (suc (length elementary)) elementary s.sets (omega arith) h.cache in
    record { elementary_short = scanned.short; cache = scanned.cache }

feed_payload-IsTidy : (s : Inspector) (payload : Bytes) → IsTidy s → IsTidy (feed_payload s payload)
feed_payload-IsTidy s [] h = h
feed_payload-IsTidy s (b ∷ payload) h = feed_elementary-IsTidy s (b ∷ payload) h

IsTidy-copy :
    (s s' : Inspector) → s'.elementary ≡ s.elementary → s'.sets ≡ s.sets → IsTidy s → IsTidy s'
IsTidy-copy s s' e f h = record { elementary_short = rw e h.elementary_short; cache = rw f h.cache }

take_pes-IsTidy :
    (s : Inspector) (code : ℕ) (packet : Bytes) → IsTidy s → IsTidy (take_pes s code packet)
unfolding take_pes
take_pes-IsTidy s code packet h = go (is_video code)
  where
    go :
        (b : Bool)
        → IsTidy (
            if b
            then feed_payload (record s { video_stream_id = some code }) (pes_payload packet)
            else s)
    go true =
        feed_payload-IsTidy (record s { video_stream_id = some code }) (pes_payload packet)
          (IsTidy-copy s (record s { video_stream_id = some code }) refl refl h)
    go false = h

-- A round that keeps the state tidy.
data KeepsTidy : Round → Type 0 where
  waits_tidy : {s : Inspector} → IsTidy s → KeepsTidy (waits s)
  goes_on_tidy : {s : Inspector} → IsTidy s → KeepsTidy (goes_on s)

when_whole-IsTidy :
    (s : Inspector) (o : Option ℕ) (whole : ℕ → Inspector)
    → IsTidy s
    → ((n : ℕ) → IsTidy (whole n))
    → KeepsTidy (when_whole s o whole)
when_whole-IsTidy s none whole h k = waits_tidy h
when_whole-IsTidy s (some n) whole h k = elim (Bool-cases (ltb (length s.pending) n)) [
  | inl short ↦ rw short (waits_tidy h)
  | inr enough ↦ rw enough (goes_on_tidy (k n))
]

if-KeepsTidy :
    (b : Bool) {r r' : Round} → KeepsTidy r → KeepsTidy r' → KeepsTidy (if b then r else r')
if-KeepsTidy true h h' = h
if-KeepsTidy false h h' = h'

parse_code-IsTidy : (s : Inspector) → IsTidy s → KeepsTidy (parse_code s)
unfolding parse_code
parse_code-IsTidy s h =
    let dropped =
      goes_on_tidy (IsTidy-copy s (record s { pending = drop 4 s.pending }) refl refl h) in
    if-KeepsTidy _ (waits_tidy h) (
      if-KeepsTidy _
        (when_whole-IsTidy s (pack_size s.pending)
          (λ n. record s { pack_header = take n s.pending; pending = drop n s.pending }) h
          (λ n.
            IsTidy-copy s (record s { pack_header = take n s.pending; pending = drop n s.pending })
              refl refl h))
        (if-KeepsTidy _ dropped (
          if-KeepsTidy _
            (when_whole-IsTidy s (pes_size s.pending (byte_at s.pending 3))
              (λ n. record (take_pes s (byte_at s.pending 3) (take n s.pending)) {
                pending = drop n s.pending;
              })
              h
              (λ n.
                IsTidy-copy (take_pes s (byte_at s.pending 3) (take n s.pending))
                  (record (take_pes s (byte_at s.pending 3) (take n s.pending)) {
                    pending = drop n s.pending;
                  })
                  refl refl (take_pes-IsTidy s (byte_at s.pending 3) (take n s.pending) h)))
            dropped)))

parse_round-IsTidy : (s : Inspector) → IsTidy s → KeepsTidy (parse_round s)
unfolding parse_round
parse_round-IsTidy s h = go (find start_prefix s.pending)
  where
    go :
        (o : Option ℕ)
        → KeepsTidy (elim o [
          | none ↦ waits (record s { pending = keep_last 3 s.pending })
          | some start ↦ parse_code (record s { pending = drop start s.pending })
        ])
    go none = waits_tidy (IsTidy-copy s (record s { pending = keep_last 3 s.pending }) refl refl h)
    go (some start) =
        let s' = record s { pending = drop start s.pending } in
        parse_code-IsTidy s' (IsTidy-copy s s' refl refl h)

parse_loop-IsTidy : (fuel : ℕ) (s : Inspector) → IsTidy s → IsTidy (parse_loop fuel s)
unfolding parse_loop
parse_loop-IsTidy zero s h = h
parse_loop-IsTidy (suc fuel) s h =
    go (parse_round s) (parse_round-IsTidy s h) (λ s' h'. parse_loop-IsTidy fuel s' h')
  where
    go :
        (r : Round)
        → KeepsTidy r
        → ((s' : Inspector) → IsTidy s' → IsTidy (parse_loop fuel s'))
        → IsTidy (elim r [ waits s' ↦ s' | goes_on s' ↦ parse_loop fuel s' ])
    go (waits s') (waits_tidy k) again = k
    go (goes_on s') (goes_on_tidy k) again = again s' k

-- The inspector's memory is bounded, and what it caches are distinct parameter sets.
pub record IsBounded (s : Inspector) : Type 0 where
  pub pending_short : length s.pending ≤ max_pending
  pub tidy : IsTidy s

receive-IsBounded : (s : Inspector) (chunk : Bytes) → IsTidy s → IsBounded (receive s chunk)
unfolding receive
receive-IsBounded s chunk h = elim (Bool-cases (ltb max_pending (length (s.pending ++ chunk)))) [
  | inl over ↦ rw over (record {
    pending_short =
        omega (arith, length-drop (length (s.pending ++ chunk) - 4) (s.pending ++ chunk));
    tidy = record { elementary_short = omega arith; cache = h.cache };
  })
  | inr fits ↦ rw fits (record {
    pending_short = ltb_false→le _ _ fits;
    tidy = IsTidy-copy s (record s { pending = s.pending ++ chunk }) refl refl h;
  })
]

feed-IsBounded : (s : Inspector) (chunk : Bytes) → IsBounded s → IsBounded (feed s chunk).0
unfolding feed parse
feed-IsBounded s chunk h =
    let b = receive-IsBounded s chunk h.tidy in
    record {
      pending_short = omega (arith, b.pending_short, parse-kept (receive s chunk));
      tidy = parse_loop-IsTidy _ (receive s chunk) b.tidy;
    }

flush-IsBounded : (s : Inspector) → IsBounded s → IsBounded (flush s).0
unfolding flush flush_elementary
flush-IsBounded s h = go (find start_prefix s.elementary)
  where
    go :
        (o : Option ℕ)
        → IsBounded (elim o [
          | none ↦ record s { elementary = [] }
          | some start ↦ record s {
            sets = inspect_nal s.sets (drop (start + 3) s.elementary);
            elementary = [];
          }
        ])
    go none = record {
      pending_short = h.pending_short;
      tidy = record { elementary_short = omega arith; cache = h.tidy.cache };
    }
    go (some start) = record {
      pending_short = h.pending_short;
      tidy = record {
        elementary_short = omega arith;
        cache = inspect_nal-IsCache s.sets (drop (start + 3) s.elementary) h.tidy.cache;
      };
    }

-- The calls of an inspector.
pub data InspectorCall : Type 0 where
  feeds : Bytes → InspectorCall
  flushes : InspectorCall

abbrev pub inspect_all : Inspector → List InspectorCall → Inspector
inspect_all s [] = s
inspect_all s (feeds chunk ∷ calls) = inspect_all (feed s chunk).0 calls
inspect_all s (flushes ∷ calls) = inspect_all (flush s).0 calls

calls-IsBounded :
    (calls : List InspectorCall) (s : Inspector) → IsBounded s → IsBounded (inspect_all s calls)
calls-IsBounded [] s h = h
calls-IsBounded (feeds chunk ∷ calls) s h =
    calls-IsBounded calls (feed s chunk).0 (feed-IsBounded s chunk h)
calls-IsBounded (flushes ∷ calls) s h = calls-IsBounded calls (flush s).0 (flush-IsBounded s h)

empty-IsGroup : (name : SetName) → IsGroup name []
empty-IsGroup name = record { few = omega arith; distinct = tt; parameter_sets = tt }

-- Whatever is fed to a fresh inspector, in whatever chunks: its buffers stay within 2 MiB and 1 MiB;
-- it caches at most 64 units of a type and 1 MiB in all; no unit is cached twice; and each is a
-- parameter set of its type, which `_detect_parameter_set` of the RTP half reads as HEVC as well.
pub inspect_all-IsBounded :
    (calls : List InspectorCall) → IsBounded (inspect_all new_inspector calls)
inspect_all-IsBounded calls = calls-IsBounded calls new_inspector (record {
  pending_short = omega arith;
  tidy = record {
    elementary_short = omega arith;
    cache = record {
      small = omega arith;
      groups = elim [ vps ↦ empty-IsGroup vps | sps ↦ empty-IsGroup sps | pps ↦ empty-IsGroup pps ];
    };
  };
})
