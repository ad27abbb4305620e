-- ===== src/Session/AudioPipe/Framing.antt =====
-- About the order of the bytes that reach FFmpeg's audio input.
use mathlib.Core.List.{Sublist, sublist-append_left, sublist-append_right}
use mathlib.Core.List.Sublist
use mathlib.Core.Path.{subst}
use ezviz_stream_bridge.Prelude.{
  ℕ, ◌-◌, ◌≡◌, refl, sym, ap, ◌∙◌, Bool, true, false, List, [], ◌∷◌, ◌++◌, Bytes, length, ltb,
  concat, append_assoc, append-nil, Bool-cases, inl, inr, if◌then◌else◌,
}
use ezviz_stream_bridge.Session.Queue.{Answer, evict_recount, Drained, drain_queue}
use ezviz_stream_bridge.Session.Queue.Laws.{drain_queue_order}
use ezviz_stream_bridge.Session.AudioPipe.Conserved.{IsSound, offered_by, run-new_pipe-IsSound}
use ezviz_stream_bridge.Session.AudioPipe.{
  AudioPipe, audio_pending_bytes, new_pipe, give_up, drain, enqueue, write, flush, close, Call,
  writes, flushes, closes, step, run,
}

-- What has reached the reader, and then what is queued.
abbrev pub in_order : AudioPipe → Bytes
in_order p = p.received ++ concat p.pending

evict_order :
    (bound : ℕ) (pending : List Bytes) (bytes : ℕ)
    → Sublist (concat (evict_recount bound pending bytes).kept) (concat pending)
unfolding evict_recount
evict_order bound [] bytes = Sublist.refl []
evict_order bound (chunk ∷ []) bytes = Sublist.refl _
evict_order bound (chunk ∷ next ∷ rest) bytes = elim (Bool-cases (ltb bound bytes)) [
  | inl over ↦ rw over (
      Sublist.trans (evict_order bound (next ∷ rest) _)
        (sublist-append_right chunk (concat (next ∷ rest))))
  | inr within ↦ rw within (Sublist.refl _)
]

concat-append : (xss yss : List Bytes) → concat (xss ++ yss) ≡ concat xss ++ concat yss
concat-append [] yss = refl
concat-append (xs ∷ xss) yss =
    ap (λ t. xs ++ t) (concat-append xss yss) ∙ sym (append_assoc xs (concat xss) (concat yss))

give_up_order : (p : AudioPipe) → Sublist (in_order (give_up p)) (in_order p)
unfolding give_up
give_up_order p =
    Sublist.append (Sublist.refl p.received) (sublist-append_left [] (concat p.pending))

drain_order : (p : AudioPipe) → Sublist (in_order (drain p)) (in_order p)
unfolding drain
drain_order p = go p.closed (drain_queue p.pending p.answers).failed
  where
    d : Drained
    d = drain_queue p.pending p.answers

    q : AudioPipe
    q = record p {
      pending = d.left;
      pending_bytes = p.pending_bytes - length d.sent;
      answers = d.answers;
      received = p.received ++ d.sent;
    }

    same : in_order q ≡ in_order p
    same =
        append_assoc p.received d.sent (concat d.left)
        ∙ ap (λ t. p.received ++ t) (drain_queue_order p.pending p.answers)

    kept : Sublist (in_order q) (in_order p)
    kept = subst (λ t. Sublist (in_order q) t) same (Sublist.refl (in_order q))

    go :
        (shut gone : Bool)
        → Sublist (in_order (if shut then p else if gone then give_up q else q)) (in_order p)
    go true gone = Sublist.refl (in_order p)
    go false true = Sublist.trans (give_up_order q) kept
    go false false = kept

enqueue_order :
    (p : AudioPipe) (frames : Bytes) → Sublist (in_order (enqueue p frames)) (in_order p ++ frames)
unfolding enqueue
enqueue_order p frames =
    let grown : concat (p.pending ++ (frames ∷ [])) ≡ concat p.pending ++ frames =
      concat-append p.pending (frames ∷ []) ∙ ap (λ t. concat p.pending ++ t) (append-nil frames) in
    subst (λ t. Sublist (in_order (enqueue p frames)) t)
      (ap (λ t. p.received ++ t) grown ∙ sym (append_assoc p.received (concat p.pending) frames))
      (Sublist.append (Sublist.refl p.received)
        (evict_order audio_pending_bytes (p.pending ++ (frames ∷ [])) _))

write_order :
    (p : AudioPipe) (frames : Bytes) → Sublist (in_order (write p frames)) (in_order p ++ frames)
unfolding write
write_order p frames = go p.closed
  where
    go :
        (shut : Bool)
        → Sublist (in_order (if shut then p else drain (enqueue p frames))) (in_order p ++ frames)
    go true = sublist-append_left (in_order p) frames
    go false = Sublist.trans (drain_order (enqueue p frames)) (enqueue_order p frames)

close_order : (p : AudioPipe) → Sublist (in_order (close p)) (in_order p)
unfolding close
close_order p = go p.closed
  where
    go :
        (shut : Bool)
        → Sublist (in_order (if shut then p else give_up (record p { closed = true }))) (in_order p)
    go true = Sublist.refl (in_order p)
    go false = give_up_order (record p { closed = true })

-- All the bytes that the calls write, in order.
abbrev pub written : List Call → Bytes
written [] = []
written (writes frames ∷ calls) = frames ++ written calls
written (flushes ∷ calls) = written calls
written (closes ∷ calls) = written calls

run_order :
    (calls : List Call) (p : AudioPipe)
    → Sublist (in_order (run p calls)) (in_order p ++ written calls)
unfolding run step flush
run_order [] p = sublist-append_left (in_order p) []
run_order (writes frames ∷ calls) p = Sublist.trans (run_order calls (write p frames)) (
    subst (λ t. Sublist (in_order (write p frames) ++ written calls) t)
      (append_assoc (in_order p) frames (written calls))
      (Sublist.append (write_order p frames) (Sublist.refl (written calls))))
run_order (flushes ∷ calls) p =
    Sublist.trans (run_order calls (drain p))
      (Sublist.append (drain_order p) (Sublist.refl (written calls)))
run_order (closes ∷ calls) p =
    Sublist.trans (run_order calls (close p))
      (Sublist.append (close_order p) (Sublist.refl (written calls)))

received_sublist :
    (calls : List Call) (answers : List Answer)
    → Sublist (run (new_pipe answers) calls).received (written calls)
received_sublist calls answers =
    Sublist.trans (sublist-append_left _ (concat (run (new_pipe answers) calls).pending))
      (run_order calls (new_pipe answers))

-- Whatever the calls and whatever the descriptor answers: the bytes offered before the first close
-- are with the reader, in the queue or counted in `dropped`, and what the reader received is a
-- subsequence of what was written; `pending_bytes` is the size of the queue, which is within its
-- bound unless it is a single chunk; a closed pipe holds nothing.
pub run-new_pipe-Sublist :
    (calls : List Call) (answers : List Answer)
    → IsSound (offered_by false calls) (run (new_pipe answers) calls)
      × Sublist (run (new_pipe answers) calls).received (written calls)
run-new_pipe-Sublist calls answers =
    (run-new_pipe-IsSound calls answers, received_sublist calls answers)
