-- ===== src/Session/VideoPipe/Conserved.antt =====
-- About the bytes and the bounds of `_VideoPipe`.
use ezviz_stream_bridge.Prelude.{
  ℕ, ◌+◌, ◌≤◌, ◌≡◌, ◌⊎◌, refl, Bool, true, false, List, [], ◌∷◌, ◌++◌, Bytes, arith, length,
  length-append, if◌then◌else◌, inl, inr,
}
use mathlib.Core.Path.{subst}
use ezviz_stream_bridge.Session.Queue.{Answer, sum_lengths, drain_queue}
use ezviz_stream_bridge.Session.Queue.Laws.{evict-Accounts, drain_queue_bytes, drain_queue_shrinks}
use ezviz_stream_bridge.Session.VideoPipe.{
  VideoPipe, video_pending_bytes, new_video_pipe, raised, drain, enqueue, write, flush, close,
  VideoCall, video_writes, video_flushes, video_closes, after, step, run,
}

-- The counter is the size of the queue, the queue is within its bound unless it is one chunk, a
-- closed pipe holds nothing, and `offered` bytes are accounted for.
pub record IsSound (offered : ℕ) (p : VideoPipe) : Type 0 where
  pub counted : sum_lengths p.pending ≡ p.pending_bytes
  pub conserved : length p.received + p.pending_bytes + p.dropped ≡ offered
  pub bounded : (p.pending_bytes ≤ video_pending_bytes) ⊎ (length p.pending ≤ 1)
  pub released : (p.closed ≡ false) ⊎ (p.pending_bytes ≡ 0)

sum_lengths-append : (xs ys : List Bytes) → sum_lengths (xs ++ ys) ≡ sum_lengths xs + sum_lengths ys
sum_lengths-append [] ys = omega arith
sum_lengths-append (x ∷ xs) ys = omega (arith, sum_lengths-append xs ys)

-- The object that an outcome carries.
drain-IsSound : {n : ℕ} (p : VideoPipe) → IsSound n p → IsSound n (after (drain p))
unfolding drain after
drain-IsSound p h = ground (
  arith,
  drain_queue_bytes p.pending p.answers,
  drain_queue_shrinks p.pending p.answers,
  length-append p.received (drain_queue p.pending p.answers).sent,
)

enqueue-IsSound :
    {n : ℕ} (p : VideoPipe) (chunk : Bytes)
    → p.closed ≡ false
    → IsSound n p
    → IsSound (n + length chunk) (enqueue p chunk)
unfolding enqueue
enqueue-IsSound p chunk open_pipe h =
    let grown = sum_lengths-append p.pending (chunk ∷ []) in
    let a =
      evict-Accounts video_pending_bytes (p.pending ++ (chunk ∷ []))
        (p.pending_bytes + length chunk) (omega (arith, grown, h.counted)) in
    record {
      counted = a.counted;
      conserved = omega (arith, a.conserved, h.conserved, h.counted, grown);
      bounded = a.bounded;
      released = inl open_pipe;
    }

write-IsSound :
    {n : ℕ} (p : VideoPipe) (chunk : Bytes)
    → IsSound n p
    → IsSound (if p.closed then n else n + length chunk) (after (write p chunk))
unfolding write after
write-IsSound {n} p chunk h = go p.closed refl
  where
    go :
        (b : Bool)
        → p.closed ≡ b
        → IsSound
            (if b then n else n + length chunk)
            (after (if b then raised p else drain (enqueue p chunk)))
    go true e = h
    go false e = drain-IsSound (enqueue p chunk) (enqueue-IsSound p chunk e h)

close-IsSound : {n : ℕ} (p : VideoPipe) → IsSound n p → IsSound n (close p)
unfolding close
close-IsSound p h = ground arith

-- The bytes that the calls offer to a pipe: those of the writes before the first close.
abbrev pub offered : Bool → List VideoCall → ℕ
offered shut [] = 0
offered shut (video_writes chunk ∷ calls) = (if shut then 0 else length chunk) + offered shut calls
offered shut (video_flushes ∷ calls) = offered shut calls
offered shut (video_closes ∷ calls) = offered true calls

drain_closed : (p : VideoPipe) → (after (drain p)).closed ≡ p.closed
unfolding drain after
drain_closed p = ground arith

write_closed : (p : VideoPipe) (chunk : Bytes) → (after (write p chunk)).closed ≡ p.closed
unfolding write enqueue after
write_closed p chunk = go p.closed refl
  where
    go :
        (b : Bool)
        → p.closed ≡ b
        → (after (if b then raised p else drain (enqueue p chunk))).closed ≡ p.closed
    go true e = refl
    go false e = drain_closed (enqueue p chunk)

run-IsSound :
    (calls : List VideoCall) (n : ℕ) (p : VideoPipe)
    → IsSound n p
    → IsSound (n + offered p.closed calls) (run p calls)
unfolding run step flush close
run-IsSound [] n p h = let e : n + 0 ≡ n = omega arith in rw e h
run-IsSound (video_writes chunk ∷ calls) n p h =
    let q : VideoPipe = after (write p chunk) in
    let e : (if p.closed then n else n + length chunk) + offered q.closed calls
        ≡ n + offered p.closed (video_writes chunk ∷ calls) =
      ground (arith, write_closed p chunk) in
    subst (λ m. IsSound m (run q calls)) e (run-IsSound calls _ q (write-IsSound p chunk h))
run-IsSound (video_flushes ∷ calls) n p h =
    subst (λ b. IsSound (n + offered b calls) (run (after (drain p)) calls)) (drain_closed p)
      (run-IsSound calls n (after (drain p)) (drain-IsSound p h))
run-IsSound (video_closes ∷ calls) n p h = run-IsSound calls n (close p) (close-IsSound p h)

-- Whatever the calls, raising ones included, and whatever the descriptor answers: the bytes offered
-- before the first close are with the reader, in the queue or counted in `dropped`; `pending_bytes`
-- is the size of the queue, within its bound unless it is a single chunk; a closed pipe holds nothing.
pub run-new_video_pipe-IsSound :
    (calls : List VideoCall) (answers : List Answer)
    → IsSound (offered false calls) (run (new_video_pipe answers) calls)
run-new_video_pipe-IsSound calls answers =
    let e : 0 + offered false calls ≡ offered false calls = omega arith in
    subst (λ n. IsSound n (run (new_video_pipe answers) calls)) e
      (run-IsSound calls 0 (new_video_pipe answers) (record {
        counted = refl;
        conserved = omega arith;
        bounded = inr (omega arith);
        released = inl refl;
      }))
