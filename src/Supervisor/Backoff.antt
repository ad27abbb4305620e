-- ===== src/Supervisor/Backoff.antt =====
-- About the property `backoff` of `_Proxy`.
use ezviz_stream_bridge.Prelude.{
  ℕ, zero, suc, ◌+◌, ◌-◌, ◌*◌, ◌^◌, ◌≤◌, ◌<◌, ◌≡◌, refl, ap, ◌∙◌, min, none, some, arith, lt→ltb,
  leb-false, ltb-false,
}
use native.Mathlib.Nat.{pow-suc, one-le-pow}
use ezviz_stream_bridge.Supervisor.{first_backoff, max_backoff, backoff}

pub backoff-suc :
    (k : ℕ) → k < 1024 → backoff (suc k) ≡ some (min (first_backoff * 2 ^ k) max_backoff)
unfolding backoff
backoff-suc zero h = refl
backoff-suc (suc k) h =
    let e : suc (suc k) - 1 ≡ suc k = omega arith in
    rw (leb-false (suc (suc k)) 1 (omega arith)) (rw e (rw (lt→ltb (suc k) 1024 h) refl))

-- Up to 1024 failures in a row there is a delay: it is between five seconds and five minutes, and
-- one more failure doubles it, up to the cap.
backoff_grows :
    (failures : ℕ)
    → 1 ≤ failures
    → failures < 1024
    → (delay : ℕ) × (backoff failures ≡ some delay)
      × (first_backoff ≤ delay)
      × (delay ≤ max_backoff)
      × (backoff (failures + 1) ≡ some (min (2 * delay) max_backoff))
backoff_grows zero low high = absurd (omega arith)
backoff_grows (suc k) low high =
    let one : 1 ≤ 2 ^ k = one-le-pow k 2 (omega arith) in
    let doubled : 2 ^ suc k ≡ 2 * 2 ^ k = pow-suc 2 k ∙ omega arith in
    let twice : min (first_backoff * 2 ^ suc k) max_backoff
        ≡ min (2 * min (first_backoff * 2 ^ k) max_backoff) max_backoff =
      omega (arith, doubled) in
    let next : suc k + 1 ≡ suc (suc k) = omega arith in
    (
      min (first_backoff * 2 ^ k) max_backoff,
      backoff-suc k (omega arith),
      omega (arith, one),
      omega arith,
      ap backoff next ∙ backoff-suc (suc k) high ∙ ap (λ n. some n) twice,
    )

-- From 1025 failures in a row on the delay cannot be computed: the power does not fit a float.
pub backoff_overflow : (failures : ℕ) → 1025 ≤ failures → backoff failures ≡ none
unfolding backoff
backoff_overflow failures h =
    rw (leb-false failures 1 (omega arith)) (rw (ltb-false (failures - 1) 1024 (omega arith)) refl)

pub backoff-some :
    (failures : ℕ)
    → failures ≤ 1024
    → (delay : ℕ) × (backoff failures ≡ some delay)
      × (first_backoff ≤ delay)
      × (delay ≤ max_backoff)
unfolding backoff
backoff-some zero h = (first_backoff, refl, omega arith, omega arith)
backoff-some (suc k) h =
    let one : 1 ≤ 2 ^ k = one-le-pow k 2 (omega arith) in
    (min (first_backoff * 2 ^ k) max_backoff, backoff-suc k h, omega (arith, one), omega arith)
