-- ===== src/Config/Distinct.antt =====
-- About `len(set(values)) != len(values)`, and how many numbers fit in a range.
use ezviz_stream_bridge.Prelude.{
  ℕ, zero, suc, ◌+◌, ◌≤◌, ◌<◌, ◌≡◌, refl, ap, Bool, true, false, List, [], ◌∷◌, All, arith, length,
  ◌==◌, ==→eq, Bool-cases, inl, inr, or_false, not-false, if◌then◌else◌,
}
use mathlib.Core.Path.{subst}
use ezviz_stream_bridge.Config.{holds, set_of, has_twice}

-- No two entries are the same.
abbrev pub IsDistinct : {A : Type 0} → (A → A → Bool) → List A → Type 0
IsDistinct same [] = Unit {0}
IsDistinct same (a ∷ rest) = (holds same a rest ≡ false) × IsDistinct same rest

length-set_of :
    {A : Type 0} (same : A → A → Bool) (xs : List A) → length (set_of same xs) ≤ length xs
unfolding set_of
length-set_of same [] = omega arith
length-set_of same (a ∷ rest) =
    let shorter = length-set_of same rest in
    elim (Bool-cases (holds same a rest)) [
      | inl held ↦ rw held (omega (arith, shorter))
      | inr new ↦ rw new (omega (arith, shorter))
    ]

same_length :
    {A : Type 0} (same : A → A → Bool) (xs : List A)
    → length (set_of same xs) ≡ length xs
    → IsDistinct same xs
unfolding set_of
same_length same [] e = tt
same_length same (a ∷ rest) e =
    let (new, shorter) = go (holds same a rest) refl e in (new, same_length same rest shorter)
  where
    go :
        (b : Bool)
        → holds same a rest ≡ b
        → length (if b then set_of same rest else a ∷ set_of same rest) ≡ suc (length rest)
        → (holds same a rest ≡ false) × (length (set_of same rest) ≡ length rest)
    go true h e = absurd (omega (arith, e, length-set_of same rest))
    go false h e = (h, omega (arith, e))

pub has_twice-IsDistinct :
    {A : Type 0} (same : A → A → Bool) (xs : List A)
    → has_twice same xs ≡ false
    → IsDistinct same xs
has_twice-IsDistinct same xs e =
    same_length same xs (==→eq (length (set_of same xs)) (length xs) (not-false _ e))

-- The numbers of a list but for this one.
abbrev without : ℕ → List ℕ → List ℕ
without k [] = []
without k (n ∷ ns) = if n == k then without k ns else n ∷ without k ns

abbrev pub IsDistinctNumbers : List ℕ → Type 0
IsDistinctNumbers = IsDistinct (λ a b. a == b)

abbrev pub IsBetween : ℕ → ℕ → ℕ → Type 0
IsBetween low n port = (low ≤ port) × (port < low + n)

holds_none :
    (k : ℕ) (ns : List ℕ) → holds (λ a b. a == b) k ns ≡ false → length (without k ns) ≡ length ns
unfolding holds
holds_none k [] e = refl
holds_none k (n ∷ ns) e =
    let (apart, rest) = or_false (k == n) (holds (λ a b. a == b) k ns) e in
    elim (Bool-cases (n == k)) [
      | inl same ↦ ground arith
      | inr other ↦ rw other (ap suc (holds_none k ns rest))
    ]

length-without :
    (k : ℕ) (ns : List ℕ) → IsDistinctNumbers ns → length ns ≤ suc (length (without k ns))
length-without k [] d = omega arith
length-without k (n ∷ ns) (new, d) = elim (Bool-cases (n == k)) [
  | inl same ↦
      let gone =
        holds_none k ns (subst (λ m. holds (λ a b. a == b) m ns ≡ false) (==→eq n k same) new) in
      rw same (omega (arith, gone))
  | inr other ↦ rw other (omega (arith, length-without k ns d))
]

holds-without :
    (m k : ℕ) (ns : List ℕ)
    → holds (λ a b. a == b) m ns ≡ false
    → holds (λ a b. a == b) m (without k ns) ≡ false
unfolding holds
holds-without m k [] e = refl
holds-without m k (n ∷ ns) e =
    let (apart, rest) = or_false (m == n) (holds (λ a b. a == b) m ns) e in
    elim (Bool-cases (n == k)) [
      | inl same ↦ rw same (holds-without m k ns rest)
      | inr other ↦ rw other (rw apart (holds-without m k ns rest))
    ]

IsDistinct-without : (k : ℕ) (ns : List ℕ) → IsDistinctNumbers ns → IsDistinctNumbers (without k ns)
IsDistinct-without k [] d = tt
IsDistinct-without k (n ∷ ns) (new, d) = elim (Bool-cases (n == k)) [
  | inl same ↦ rw same (IsDistinct-without k ns d)
  | inr other ↦ rw other (holds-without n k ns new, IsDistinct-without k ns d)
]

IsBetween-without :
    (low n : ℕ) (ns : List ℕ)
    → All (IsBetween low (suc n)) ns
    → All (IsBetween low n) (without (low + n) ns)
IsBetween-without low n [] h = tt
IsBetween-without low n (m ∷ ns) (h, hs) = elim (Bool-cases (m == low + n)) [
  | inl same ↦ rw same (IsBetween-without low n ns hs)
  | inr other ↦
      let below : m < low + n = ground arith in
      rw other ((h.0, below), IsBetween-without low n ns hs)
]

-- Distinct numbers of a range are at most as many as the range has.
pub few_of_range :
    (low n : ℕ) (ns : List ℕ) → All (IsBetween low n) ns → IsDistinctNumbers ns → length ns ≤ n
few_of_range low zero [] h d = omega arith
few_of_range low zero (m ∷ ns) (h, hs) d = absurd (omega (arith, h.0, h.1))
few_of_range low (suc n) ns h d =
    let k = low + n in
    let rest =
      few_of_range low n (without k ns) (IsBetween-without low n ns h)
        (IsDistinct-without k ns d) in
    omega (arith, rest, length-without k ns d)
