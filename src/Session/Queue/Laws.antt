-- ===== src/Session/Queue/Laws.antt =====
-- About the two loops of the pipes: bytes, chunks and their order.
use ezviz_stream_bridge.Prelude.{
  ℕ, ◌+◌, ◌-◌, ◌≤◌, ◌≡◌, ◌⊎◌, inl, inr, refl, sym, ap, ◌∙◌, List, [], ◌∷◌, ◌++◌, Bytes, arith,
  length, take, drop, min, ltb, concat, length-append, take-append-drop, append_assoc, Bool-cases,
}
use ezviz_stream_bridge.Session.Queue.{
  Answer, accepts, blocks, fails, sum_lengths, Evicted, evict, evict_recount, drain_queue,
}

-- Counting: what was queued is what is kept and what was dropped, in bytes and in chunks.
pub record Accounts (bound : ℕ) (pending : List Bytes) (e : Evicted) : Type 0 where
  pub counted : sum_lengths e.kept ≡ e.kept_bytes
  pub conserved : e.kept_bytes + e.lost_bytes ≡ sum_lengths pending
  pub chunks : length e.kept + e.lost_chunks ≡ length pending
  pub bounded : (e.kept_bytes ≤ bound) ⊎ (length e.kept ≤ 1)

pub evict-Accounts :
    (bound : ℕ) (pending : List Bytes) (bytes : ℕ)
    → bytes ≡ sum_lengths pending
    → Accounts bound pending (evict bound pending bytes)
unfolding evict
evict-Accounts bound [] bytes e = ground arith
evict-Accounts bound (chunk ∷ []) bytes e = ground arith
evict-Accounts bound (chunk ∷ next ∷ rest) bytes e =
    let ih = evict-Accounts bound (next ∷ rest) (bytes - length chunk) (omega arith) in
    elim (Bool-cases (ltb bound bytes)) [
      | inl over ↦ rw over (record {
        counted = ih.counted;
        conserved = omega (arith, ih.conserved);
        chunks = omega (arith, ih.chunks);
        bounded = ih.bounded;
      })
      | inr within ↦ rw within (record {
        counted = sym e;
        conserved = omega arith;
        chunks = omega arith;
        bounded = inl (ground arith);
      })
    ]

-- Where the counter is right, counting again and subtracting are the same.
evict_recount_lem :
    (bound : ℕ) (pending : List Bytes) (bytes : ℕ)
    → bytes ≡ sum_lengths pending
    → evict_recount bound pending bytes ≡ evict bound pending bytes
unfolding evict evict_recount
evict_recount_lem bound [] bytes e = refl
evict_recount_lem bound (chunk ∷ []) bytes e = refl
evict_recount_lem bound (chunk ∷ next ∷ rest) bytes e =
    let left : bytes - length chunk ≡ sum_lengths (next ∷ rest) = omega arith in
    rw left (rw (evict_recount_lem bound (next ∷ rest) (sum_lengths (next ∷ rest)) refl) refl)

pub evict_recount-Accounts :
    (bound : ℕ) (pending : List Bytes) (bytes : ℕ)
    → bytes ≡ sum_lengths pending
    → Accounts bound pending (evict_recount bound pending bytes)
evict_recount-Accounts bound pending bytes e =
    rw (evict_recount_lem bound pending bytes e) (evict-Accounts bound pending bytes e)

-- What the reader is given and what stays queued are together what was queued, byte for byte and
-- in order.
pub drain_queue_order :
    (pending : List Bytes) (answers : List Answer)
    → (drain_queue pending answers).sent ++ concat (drain_queue pending answers).left
      ≡ concat pending
unfolding drain_queue
drain_queue_order [] answers = refl
drain_queue_order (chunk ∷ rest) [] = refl
drain_queue_order (chunk ∷ rest) (blocks ∷ answers) = refl
drain_queue_order (chunk ∷ rest) (fails ∷ answers) = refl
drain_queue_order (chunk ∷ rest) (accepts room ∷ answers) =
    let n = min room (length chunk) in
    elim (Bool-cases (ltb n (length chunk))) [
      | inl part ↦ rw part (
          sym (append_assoc (take n chunk) (drop n chunk) (concat rest))
          ∙ ap (λ t. t ++ concat rest) (take-append-drop n chunk))
      | inr whole ↦ rw whole (
          append_assoc chunk (drain_queue rest answers).sent
            (concat (drain_queue rest answers).left)
          ∙ ap (λ t. chunk ++ t) (drain_queue_order rest answers))
    ]

pub length-concat : (chunks : List Bytes) → length (concat chunks) ≡ sum_lengths chunks
length-concat [] = refl
length-concat (c ∷ cs) = omega (arith, length-append c (concat cs), length-concat cs)

pub drain_queue_bytes :
    (pending : List Bytes) (answers : List Answer)
    → length (drain_queue pending answers).sent + sum_lengths (drain_queue pending answers).left
      ≡ sum_lengths pending
drain_queue_bytes pending answers =
    let d = drain_queue pending answers in
    omega (
      arith,
      ap length (drain_queue_order pending answers),
      length-append d.sent (concat d.left),
      length-concat d.left,
      length-concat pending,
    )

pub drain_queue_shrinks :
    (pending : List Bytes) (answers : List Answer)
    → length (drain_queue pending answers).left ≤ length pending
unfolding drain_queue
drain_queue_shrinks [] answers = omega arith
drain_queue_shrinks (chunk ∷ rest) [] = omega arith
drain_queue_shrinks (chunk ∷ rest) (blocks ∷ answers) = omega arith
drain_queue_shrinks (chunk ∷ rest) (fails ∷ answers) = omega arith
drain_queue_shrinks (chunk ∷ rest) (accepts room ∷ answers) =
    ground (arith, drain_queue_shrinks rest answers)
