-- ===== src/ProgramStream/Rounds.antt =====
-- About one round of `_parse`, and what more bytes at the end of its buffer change.
use ezviz_stream_bridge.Prelude.{
  ℕ, zero, suc, ◌+◌, ◌-◌, ◌≤◌, ◌<◌, ◌≡◌, refl, ap, ◌∙◌, Option, none, some, [], ◌∷◌, ◌++◌, Bytes,
  arith, length, take, drop, byte_at, slice, leb, find, find_from, length-append, find-append,
  find-some, shift, if◌then◌else◌, length-drop,
}
use ezviz_stream_bridge.ProgramStream.{
  start_prefix, Inspector, next_system_start, pack_size, pes_size, is_system_code,
}

-- The same state with more bytes in its buffer.
abbrev pub more : Inspector → Bytes → Inspector
more s bytes = record s { pending = s.pending ++ bytes }

pub take-append : (n : ℕ) (xs ys : Bytes) → n ≤ length xs → take n (xs ++ ys) ≡ take n xs
take-append zero xs ys h = refl
take-append (suc n) [] ys h = absurd (omega arith)
take-append (suc n) (x ∷ xs) ys h = ap (λ t. x ∷ t) (take-append n xs ys (omega arith))

pub drop-append : (n : ℕ) (xs ys : Bytes) → n ≤ length xs → drop n (xs ++ ys) ≡ drop n xs ++ ys
drop-append zero xs ys h = refl
drop-append (suc n) [] ys h = absurd (omega arith)
drop-append (suc n) (x ∷ xs) ys h = drop-append n xs ys (omega arith)

pub byte_at-append : (xs ys : Bytes) (i : ℕ) → i < length xs → byte_at (xs ++ ys) i ≡ byte_at xs i
byte_at-append [] ys i h = absurd (omega arith)
byte_at-append (x ∷ xs) ys zero h = refl
byte_at-append (x ∷ xs) ys (suc i) h = byte_at-append xs ys i (omega arith)

slice-append :
    (xs ys : Bytes) (first last : ℕ)
    → first ≤ last
    → last ≤ length xs
    → slice (xs ++ ys) first last ≡ slice xs first last
slice-append xs ys first last order h =
    ap (take (last - first)) (drop-append first xs ys (omega arith))
    ∙ take-append (last - first) (drop first xs) ys (omega (arith, length-drop first xs))

find_from-append :
    (xs ys : Bytes) (position found : ℕ)
    → position ≤ length xs
    → find_from start_prefix xs position ≡ some found
    → find_from start_prefix (xs ++ ys) position ≡ some found
find_from-append xs ys position found room e =
    ap (λ t. shift position (find start_prefix t)) (drop-append position xs ys room)
    ∙ go (find start_prefix (drop position xs)) refl e
  where
    go :
        (o : Option ℕ)
        → find start_prefix (drop position xs) ≡ o
        → shift position o ≡ some found
        → shift position (find start_prefix (drop position xs ++ ys)) ≡ some found
    go none f e = absurd (ground arith)
    go (some k) f e = ap (shift position) (find-append start_prefix (drop position xs) ys k f) ∙ e

pub find_from_bounds :
    (bytes : Bytes) (position found : ℕ)
    → position ≤ length bytes
    → find_from start_prefix bytes position ≡ some found
    → (position ≤ found) × (found + 3 ≤ length bytes)
find_from_bounds bytes position found room e = go (find start_prefix (drop position bytes)) refl e
  where
    go :
        (o : Option ℕ)
        → find start_prefix (drop position bytes) ≡ o
        → shift position o ≡ some found
        → (position ≤ found) × (found + 3 ≤ length bytes)
    go none f e = absurd (ground arith)
    go (some k) f e =
        let (here, fits) = find-some start_prefix (drop position bytes) k f in
        ground (arith, length-drop position bytes)

pub pack_size-append :
    (pending bytes : Bytes) (size : ℕ)
    → pack_size pending ≡ some size
    → pack_size (pending ++ bytes) ≡ some size
unfolding pack_size
pack_size-append pending bytes size e = ground (
  arith,
  length-append pending bytes,
  byte_at-append pending bytes 4,
  byte_at-append pending bytes 13,
)

pub pack_size_large : (pending : Bytes) (size : ℕ) → pack_size pending ≡ some size → 12 ≤ size
unfolding pack_size
pack_size_large pending size e = ground arith

-- A start code of either kind, and what the search does with it.
next_system_start-found :
    (fuel : ℕ) (bytes : Bytes) (position found : ℕ)
    → find_from start_prefix bytes position ≡ some found
    → next_system_start (suc fuel) bytes position ≡ (
        if leb (length bytes) (found + 3)
        then none
        else if is_system_code (byte_at bytes (found + 3))
        then some found
        else next_system_start fuel bytes (found + 3))
unfolding next_system_start
next_system_start-found fuel bytes position found e = rw (e, next_system_start) refl

next_system_start-append :
    (fuel fuel' : ℕ) (xs ys : Bytes) (position found : ℕ)
    → fuel ≤ fuel'
    → position ≤ length xs
    → next_system_start fuel xs position ≡ some found
    → next_system_start fuel' (xs ++ ys) position ≡ some found
unfolding next_system_start
next_system_start-append zero fuel' xs ys position found le room e = absurd (ground arith)
next_system_start-append (suc fuel) zero xs ys position found le room e = absurd (omega arith)
next_system_start-append (suc fuel) (suc fuel') xs ys position found le room e =
    go (find_from start_prefix xs position) refl
      (λ (k : ℕ) (h : k + 3 ≤ length xs).
        next_system_start-append fuel fuel' xs ys (k + 3) found (omega arith) h)
      e
  where
    go :
        (o : Option ℕ)
        → find_from start_prefix xs position ≡ o
        → ((k : ℕ)
            → k + 3 ≤ length xs
            → next_system_start fuel xs (k + 3) ≡ some found
            → next_system_start fuel' (xs ++ ys) (k + 3) ≡ some found)
        → (elim o [
          | none ↦ none
          | some k ↦
              let further = next_system_start fuel xs (k + 3) in
              if leb (length xs) (k + 3)
              then none
              else if is_system_code (byte_at xs (k + 3))
              then some k
              else further
        ])
          ≡ some found
        → next_system_start (suc fuel') (xs ++ ys) position ≡ some found
    go none f again e = absurd (ground arith)
    go (some k) f again e =
        next_system_start-found fuel' (xs ++ ys) position k
          (find_from-append xs ys position k room f)
        ∙ ground (
          arith,
          length-append xs ys,
          byte_at-append xs ys (k + 3),
          find_from_bounds xs position k room f,
          again k,
        )

next_system_start_bounds :
    (fuel : ℕ) (bytes : Bytes) (position found : ℕ)
    → position ≤ length bytes
    → next_system_start fuel bytes position ≡ some found
    → position ≤ found
unfolding next_system_start
next_system_start_bounds zero bytes position found room e = absurd (ground arith)
next_system_start_bounds (suc fuel) bytes position found room e =
    go (find_from start_prefix bytes position) refl
      (λ (k : ℕ) (h : k + 3 ≤ length bytes). next_system_start_bounds fuel bytes (k + 3) found h) e
  where
    go :
        (o : Option ℕ)
        → find_from start_prefix bytes position ≡ o
        → ((k : ℕ)
            → k + 3 ≤ length bytes
            → next_system_start fuel bytes (k + 3) ≡ some found
            → k + 3 ≤ found)
        → (elim o [
          | none ↦ none
          | some k ↦
              let further = next_system_start fuel bytes (k + 3) in
              if leb (length bytes) (k + 3)
              then none
              else if is_system_code (byte_at bytes (k + 3))
              then some k
              else further
        ])
          ≡ some found
        → position ≤ found
    go none f again e = absurd (ground arith)
    go (some k) f again e = ground (arith, find_from_bounds bytes position k room f, again k)

pub pes_size-append :
    (pending bytes : Bytes) (code size : ℕ)
    → pes_size pending code ≡ some size
    → pes_size (pending ++ bytes) code ≡ some size
unfolding pes_size
pes_size-append pending bytes code size e = ground (
  arith,
  length-append pending bytes,
  slice-append pending bytes 4 6,
  next_system_start-append (length pending) (length (pending ++ bytes)) pending bytes 6 size,
)

pub pes_size_large :
    (pending : Bytes) (code size : ℕ) → pes_size pending code ≡ some size → 6 ≤ size
unfolding pes_size
pes_size_large pending code size e =
    ground (arith, next_system_start_bounds (length pending) pending 6 size)
