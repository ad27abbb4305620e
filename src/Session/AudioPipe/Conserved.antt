-- ===== src/Session/AudioPipe/Conserved.antt =====
-- About the bytes and the bounds of `_AudioPipe`.
use ezviz_stream_bridge.Prelude.{
  ℕ, ◌+◌, ◌≤◌, ◌≡◌, ◌⊎◌, refl, Bool, true, false, List, [], ◌∷◌, ◌++◌, Bytes, arith, length,
  length-append, if◌then◌else◌, inl, inr,
}
use mathlib.Core.Path.{subst}
use ezviz_stream_bridge.Session.Queue.{Answer, sum_lengths, drain_queue}
use ezviz_stream_bridge.Session.Queue.Laws.{
  evict_recount-Accounts, drain_queue_bytes, drain_queue_shrinks,
}
use ezviz_stream_bridge.Session.AudioPipe.{
  AudioPipe, audio_pending_bytes, new_pipe, give_up, drain, enqueue, write, flush, close, Call,
  writes, flushes, closes, step, run,
}

-- The counter is the size of the queue, the queue is within its bound unless it is one chunk, a
-- closed pipe holds nothing, and `offered` bytes are accounted for.
pub record IsSound (offered : ℕ) (p : AudioPipe) : Type 0 where
  pub counted : sum_lengths p.pending ≡ p.pending_bytes
  pub conserved : length p.received + p.pending_bytes + p.dropped ≡ offered
  pub bounded : (p.pending_bytes ≤ audio_pending_bytes) ⊎ (length p.pending ≤ 1)
  pub released : (p.closed ≡ false) ⊎ (p.pending_bytes ≡ 0)

pub sum_lengths-append :
    (xs ys : List Bytes) → sum_lengths (xs ++ ys) ≡ sum_lengths xs + sum_lengths ys
sum_lengths-append [] ys = omega arith
sum_lengths-append (x ∷ xs) ys = omega (arith, sum_lengths-append xs ys)

give_up-IsSound : {n : ℕ} (p : AudioPipe) → IsSound n p → IsSound n (give_up p)
unfolding give_up
give_up-IsSound p h = ground arith

drain-IsSound : {n : ℕ} (p : AudioPipe) → IsSound n p → IsSound n (drain p)
unfolding drain
drain-IsSound p h = ground (
  arith,
  drain_queue_bytes p.pending p.answers,
  drain_queue_shrinks p.pending p.answers,
  length-append p.received (drain_queue p.pending p.answers).sent,
)

enqueue-IsSound :
    {n : ℕ} (p : AudioPipe) (frames : Bytes)
    → p.closed ≡ false
    → IsSound n p
    → IsSound (n + length frames) (enqueue p frames)
unfolding enqueue
enqueue-IsSound p frames open_pipe h =
    let grown = sum_lengths-append p.pending (frames ∷ []) in
    let a =
      evict_recount-Accounts audio_pending_bytes (p.pending ++ (frames ∷ []))
        (p.pending_bytes + length frames) (omega (arith, grown, h.counted)) in
    record {
      counted = a.counted;
      conserved = omega (arith, a.conserved, h.conserved, h.counted, grown);
      bounded = a.bounded;
      released = inl open_pipe;
    }

write-IsSound :
    {n : ℕ} (p : AudioPipe) (frames : Bytes)
    → IsSound n p
    → IsSound (if p.closed then n else n + length frames) (write p frames)
unfolding write
write-IsSound {n} p frames h = go p.closed refl
  where
    go :
        (b : Bool)
        → p.closed ≡ b
        → IsSound (if b then n else n + length frames) (if b then p else drain (enqueue p frames))
    go true e = h
    go false e = drain-IsSound (enqueue p frames) (enqueue-IsSound p frames e h)

close-IsSound : {n : ℕ} (p : AudioPipe) → IsSound n p → IsSound n (close p)
unfolding close
close-IsSound p h = ground arith

-- The bytes that the calls offer to a pipe: those of the writes before the first close.
abbrev pub offered_by : Bool → List Call → ℕ
offered_by shut [] = 0
offered_by shut (writes frames ∷ calls) =
    (if shut then 0 else length frames) + offered_by shut calls
offered_by shut (flushes ∷ calls) = offered_by shut calls
offered_by shut (closes ∷ calls) = offered_by true calls

drain_closed : (p : AudioPipe) → (drain p).closed ≡ p.closed
unfolding drain
drain_closed p = ground arith

write_closed : (p : AudioPipe) (frames : Bytes) → (write p frames).closed ≡ p.closed
unfolding write enqueue
write_closed p frames = ground (arith, drain_closed (enqueue p frames))

close_closed : (p : AudioPipe) → (close p).closed ≡ true
unfolding close
close_closed p = ground arith

run-IsSound :
    (calls : List Call) (n : ℕ) (p : AudioPipe)
    → IsSound n p
    → IsSound (n + offered_by p.closed calls) (run p calls)
unfolding run step flush
run-IsSound [] n p h = let e : n + 0 ≡ n = omega arith in rw e h
run-IsSound (writes frames ∷ calls) n p h =
    let e : (if p.closed then n else n + length frames) + offered_by (write p frames).closed calls
        ≡ n + offered_by p.closed (writes frames ∷ calls) =
      ground (arith, write_closed p frames) in
    subst (λ m. IsSound m (run (write p frames) calls)) e
      (run-IsSound calls _ (write p frames) (write-IsSound p frames h))
run-IsSound (flushes ∷ calls) n p h =
    subst (λ b. IsSound (n + offered_by b calls) (run (drain p) calls)) (drain_closed p)
      (run-IsSound calls n (drain p) (drain-IsSound p h))
run-IsSound (closes ∷ calls) n p h =
    subst (λ b. IsSound (n + offered_by b calls) (run (close p) calls)) (close_closed p)
      (run-IsSound calls n (close p) (close-IsSound p h))

pub run-new_pipe-IsSound :
    (calls : List Call) (answers : List Answer)
    → IsSound (offered_by false calls) (run (new_pipe answers) calls)
run-new_pipe-IsSound calls answers =
    let e : 0 + offered_by false calls ≡ offered_by false calls = omega arith in
    subst (λ n. IsSound n (run (new_pipe answers) calls)) e
      (run-IsSound calls 0 (new_pipe answers) (record {
        counted = refl;
        conserved = omega arith;
        bounded = inr (omega arith);
        released = inl refl;
      }))
