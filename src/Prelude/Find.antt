-- ===== src/Prelude/Find.antt =====
-- `bytes.find` and `bytes.startswith`.
use Prim.Native.Nat.{ℕ, zero, suc, ◌+◌, ◌-◌, ◌≤◌, ◌<◌}
use mathlib.Core.Path.{◌≡◌, refl, sym, ap, ◌∙◌}
use mathlib.Core.Bool.{Bool, true, false, ◌&&◌}
use mathlib.Core.Option.{Option, none, some}
use mathlib.Core.Logic.{◌≢◌, inl, inr}
use mathlib.Core.List.{[], ◌∷◌, ◌++◌}
use native.Mathlib.Omega.{arith}
use ezviz_stream_bridge.Prelude.Tests.{◌==◌, if◌then◌else◌, Bool-cases, leb, leb→le}
use ezviz_stream_bridge.Prelude.Lists.{Bytes, length, drop}

unfoldable pub starts_with : Bytes → Bytes → Bool
starts_with [] bytes = true
starts_with (p ∷ pattern) [] = false
starts_with (p ∷ pattern) (b ∷ bytes) = p == b && starts_with pattern bytes

abbrev pub shift : ℕ → Option ℕ → Option ℕ
shift n none = none
shift n (some position) = some (n + position)

-- `bytes.find(pattern)`; `none` is its -1.
unfoldable pub find : Bytes → Bytes → Option ℕ
unfolding starts_with
find pattern [] = if starts_with pattern [] then some 0 else none
find pattern (b ∷ bytes) =
    let later = shift 1 (find pattern bytes) in
    if starts_with pattern (b ∷ bytes) then some 0 else later

-- `bytes.find(pattern, position)`
abbrev pub find_from : Bytes → Bytes → ℕ → Option ℕ
find_from pattern bytes position = shift position (find pattern (drop position bytes))

-- `del buffer[:-n]`
abbrev pub keep_last : ℕ → Bytes → Bytes
keep_last n bytes = drop (length bytes - n) bytes

pub starts_with-append :
    (pattern xs ys : Bytes) → starts_with pattern xs ≡ true → starts_with pattern (xs ++ ys) ≡ true
unfolding starts_with
starts_with-append [] xs ys h = refl
starts_with-append (p ∷ pattern) [] ys h = absurd (ground arith)
starts_with-append (p ∷ pattern) (x ∷ xs) ys h = ground (arith, starts_with-append pattern xs ys)

pub starts_with-long :
    (pattern xs ys : Bytes)
    → length pattern ≤ length xs
    → starts_with pattern (xs ++ ys) ≡ starts_with pattern xs
unfolding starts_with
starts_with-long [] xs ys h = refl
starts_with-long (p ∷ pattern) [] ys h = absurd (omega arith)
starts_with-long (p ∷ pattern) (x ∷ xs) ys h = ground (arith, starts_with-long pattern xs ys)

pub starts_with-length :
    (pattern xs : Bytes) → starts_with pattern xs ≡ true → length pattern ≤ length xs
unfolding starts_with
starts_with-length [] xs h = omega arith
starts_with-length (p ∷ pattern) [] h = absurd (ground arith)
starts_with-length (p ∷ pattern) (x ∷ xs) h = ground (arith, starts_with-length pattern xs)

shift-suc : (o : Option ℕ) (k : ℕ) → shift 1 o ≡ some (suc k) → o ≡ some k
shift-suc none k h = ground arith
shift-suc (some n) k h = ground arith

shift-nonzero : (o : Option ℕ) → shift 1 o ≢ some 0
shift-nonzero none h = ground arith
shift-nonzero (some n) h = ground arith

shift-none : (n : ℕ) (o : Option ℕ) → shift n o ≡ none → o ≡ none
shift-none n none h = refl
shift-none n (some m) h = ground arith

pub shift-shift : (m n : ℕ) (o : Option ℕ) → shift m (shift n o) ≡ shift (m + n) o
shift-shift m n none = refl
shift-shift m n (some k) = ap some (omega arith)

pub shift-zero : (o : Option ℕ) → shift 0 o ≡ o
shift-zero none = refl
shift-zero (some k) = ap some (omega arith)

module _ (pattern : Bytes) where
  pub find-here : (bytes : Bytes) → starts_with pattern bytes ≡ true → find pattern bytes ≡ some 0
  unfolding find
  find-here [] h = rw h refl
  find-here (b ∷ bytes) h = rw h refl

  find_zero : (bytes : Bytes) → find pattern bytes ≡ some 0 → starts_with pattern bytes ≡ true
  unfolding find
  find_zero [] h = ground arith
  find_zero (b ∷ bytes) h = ground (arith, shift-nonzero (find pattern bytes))

  find-suc :
      (b : ℕ) (bytes : Bytes) (k : ℕ)
      → find pattern (b ∷ bytes) ≡ some (suc k)
      → (starts_with pattern (b ∷ bytes) ≡ false) × (find pattern bytes ≡ some k)
  unfolding find
  find-suc b bytes k h = ground (arith, shift-suc (find pattern bytes) k)

  pub find-none :
      (b : ℕ) (bytes : Bytes)
      → find pattern (b ∷ bytes) ≡ none
      → (starts_with pattern (b ∷ bytes) ≡ false) × (find pattern bytes ≡ none)
  unfolding find
  find-none b bytes h = ground (arith, shift-none 1 (find pattern bytes))

  pub find-later :
      (b : ℕ) (bytes : Bytes)
      → starts_with pattern (b ∷ bytes) ≡ false
      → find pattern (b ∷ bytes) ≡ shift 1 (find pattern bytes)
  unfolding find
  find-later b bytes h = rw h refl

  -- Where it finds the pattern, the pattern stands, and there is room for it.
  pub find-some :
      (bytes : Bytes) (position : ℕ)
      → find pattern bytes ≡ some position
      → (starts_with pattern (drop position bytes) ≡ true)
        × (position + length pattern ≤ length bytes)
  find-some bytes zero h =
      let s = find_zero bytes h in (s, omega (arith, starts_with-length pattern bytes s))
  find-some [] (suc k) h = unfold find in ground arith
  find-some (b ∷ bytes) (suc k) h =
      let (later, e) = find-suc b bytes k h in
      let (s, room) = find-some bytes k e in (s, omega (arith, room))

  pub find-append :
      (xs ys : Bytes) (position : ℕ)
      → find pattern xs ≡ some position
      → find pattern (xs ++ ys) ≡ some position
  find-append xs ys zero h =
      find-here (xs ++ ys) (starts_with-append pattern xs ys (find_zero xs h))
  find-append [] ys (suc k) h = unfold find in ground arith
  find-append (x ∷ xs) ys (suc k) h =
      let (later, e) = find-suc x xs k h in
      let (s, room) = find-some xs k e in
      let long : length pattern ≤ length (x ∷ xs) = omega (arith, room) in
      find-later x (xs ++ ys) (starts_with-long pattern (x ∷ xs) ys long ∙ later)
      ∙ ap (shift 1) (find-append xs ys k e)
      ∙ ap some (omega arith)

  -- Without the pattern, all but the last bytes can be thrown away before more bytes come.
  pub find-none-append :
      (n : ℕ) (xs ys : Bytes)
      → length pattern ≤ suc n
      → find pattern xs ≡ none
      → find pattern (xs ++ ys) ≡ shift (length xs - n) (find pattern (keep_last n xs ++ ys))
  find-none-append n [] ys short h =
      let e : 0 - n ≡ 0 = omega arith in rw e (sym (shift-zero (find pattern ys)))
  find-none-append n (x ∷ xs) ys short h = elim (Bool-cases (leb (length (x ∷ xs)) n)) [
    | inl few ↦
        let e : length (x ∷ xs) - n ≡ 0 = omega (arith, leb→le _ _ few) in
        rw e (sym (shift-zero (find pattern ((x ∷ xs) ++ ys))))
    | inr many ↦
        let (later, none_left) = find-none x xs h in
        let more : n < length (x ∷ xs) = ground arith in
        let e : length (x ∷ xs) - n ≡ suc (length xs - n) = omega arith in
        let e' : 1 + (length xs - n) ≡ suc (length xs - n) = omega arith in
        rw e (
          find-later x (xs ++ ys) (starts_with-long pattern (x ∷ xs) ys (omega arith) ∙ later)
          ∙ ap (shift 1) (find-none-append n xs ys short none_left)
          ∙ shift-shift 1 (length xs - n) (find pattern (keep_last n xs ++ ys))
          ∙ ap (λ k. shift k (find pattern (keep_last n xs ++ ys))) e')
  ]

  -- It finds the first place, and misses none.
  pub find_first :
      (bytes : Bytes) (position earlier : ℕ)
      → find pattern bytes ≡ some position
      → earlier < position
      → starts_with pattern (drop earlier bytes) ≡ false
  find_first bytes zero earlier h less = absurd (omega arith)
  find_first [] (suc k) earlier h less = unfold find in ground arith
  find_first (b ∷ bytes) (suc k) zero h less = (find-suc b bytes k h).0
  find_first (b ∷ bytes) (suc k) (suc earlier) h less =
      find_first bytes k earlier (find-suc b bytes k h).1 (omega arith)

  nowhere_in_nil : 1 ≤ length pattern → starts_with pattern [] ≡ false
  nowhere_in_nil some_byte = elim (Bool-cases (starts_with pattern [])) [
    | inl e ↦ absurd (omega (arith, starts_with-length pattern [] e))
    | inr e ↦ e
  ]

  pub find_nowhere :
      (bytes : Bytes) (position : ℕ)
      → 1 ≤ length pattern
      → find pattern bytes ≡ none
      → starts_with pattern (drop position bytes) ≡ false
  find_nowhere [] zero some_byte h = nowhere_in_nil some_byte
  find_nowhere [] (suc position) some_byte h = nowhere_in_nil some_byte
  find_nowhere (b ∷ bytes) zero some_byte h = (find-none b bytes h).0
  find_nowhere (b ∷ bytes) (suc position) some_byte h =
      find_nowhere bytes position some_byte (find-none b bytes h).1
