-- ===== src/Proxy/Waiting.antt =====
-- About `wait_for_cooldown`: it ends, and why.
use ezviz_stream_bridge.Prelude.{
  ℕ, zero, suc, ◌+◌, ◌-◌, ◌*◌, ◌≤◌, ◌<◌, ◌≡◌, ◌⊎◌, inl, inr, min, refl, true, false, List, [], ◌∷◌,
  arith, length, leb, Bool-cases, leb→le,
}
use mathlib.Core.Path.{subst, sym}
use ezviz_stream_bridge.Proxy.{
  Look, Cooldown, is_gone, is_over, sleeps, cooldown_round, Waited, consumer_gone, cooldown_over,
  wait_for_cooldown, peer_poll_interval,
}

-- Looks at one end of the cooldown, of which each comes after the sleep that the one before asked
-- for, where `time.sleep` lasts at least as long as it is asked to.
pub data Clocked (until : ℕ) : ℕ → List Look → Type 0 where
  ends : {now : ℕ} → Clocked until now []
  looks_at :
      {now : ℕ} {looks : List Look} (look : Look)
      → look.until ≡ until
      → now ≤ look.now
      → Clocked until (look.now + min (until - look.now) peer_poll_interval) looks
      → Clocked until now (look ∷ looks)

-- Why the wait has returned: an abort reason was read, or the cooldown was over when it looked.
pub data Answered : Waited → List Look → Type 0 where
  saw_abort :
      {look : Look} {looks : List Look}
      → look.aborted ≡ true
      → Answered consumer_gone (look ∷ looks)
  saw_end :
      {look : Look} {looks : List Look}
      → look.aborted ≡ false
      → look.until ≤ look.now
      → Answered cooldown_over (look ∷ looks)
  slept :
      {waited : Waited} {look : Look} {looks : List Look}
      → look.aborted ≡ false
      → look.now < look.until
      → Answered waited looks
      → Answered waited (look ∷ looks)

wait-round :
    (look : Look) (looks : List Look) (round : Cooldown)
    → cooldown_round look ≡ round
    → wait_for_cooldown (look ∷ looks) ≡ elim round [
      | is_gone ↦ consumer_gone
      | is_over ↦ cooldown_over
      | sleeps time ↦ wait_for_cooldown looks
    ]
unfolding wait_for_cooldown
wait-round look looks round e = rw (e, wait_for_cooldown) refl

round_case :
    (look : Look)
    → ((cooldown_round look ≡ is_gone) × (look.aborted ≡ true))
      ⊎ (((cooldown_round look ≡ is_over) × ((look.aborted ≡ false) × (look.until ≤ look.now)))
          ⊎ ((cooldown_round look ≡ sleeps (min (look.until - look.now) peer_poll_interval))
              × ((look.aborted ≡ false) × (look.now < look.until))))
unfolding cooldown_round
round_case look = elim (Bool-cases look.aborted) [
  | inl gone ↦ inl (rw gone refl, gone)
  | inr here ↦ elim (Bool-cases (leb look.until look.now)) [
    | inl over ↦ inr (inl (rw here (rw over refl), (here, leb→le look.until look.now over)))
    | inr early ↦ inr (inr (rw here (rw early refl), (here, ground arith)))
  ]
]

-- On a clock that goes on by at least what the wait sleeps, `wait_for_cooldown` has returned after
-- one look more than the half seconds that are left of the cooldown, and it returns because the
-- session was aborted or because the cooldown was over at its last look.
pub wait_for_cooldown_ends :
    (until now n : ℕ) (looks : List Look)
    → Clocked until now looks
    → until ≤ now + peer_poll_interval * n
    → n < length looks
    → Answered (wait_for_cooldown looks) looks
wait_for_cooldown_ends until now n [] clocked near enough = absurd (omega arith)
wait_for_cooldown_ends until now n (look ∷ looks) (looks_at _ same later clocked) near enough =
    elim (round_case look) [
      | inl (e, gone) ↦
          subst (λ w. Answered w (look ∷ looks)) (sym (wait-round look looks is_gone e))
            (saw_abort gone)
      | inr (inl (e, (here, over))) ↦
          subst (λ w. Answered w (look ∷ looks)) (sym (wait-round look looks is_over e))
            (saw_end here over)
      | inr (inr (e, (here, early))) ↦
          let time = min (look.until - look.now) peer_poll_interval in
          subst (λ w. Answered w (look ∷ looks)) (sym (wait-round look looks (sleeps time) e))
            (slept here early (
              later_looks n near enough early (λ m near' enough'.
                wait_for_cooldown_ends until (look.now + min (until - look.now) peer_poll_interval)
                  m looks clocked near' enough')))
    ]
  where
    later_looks :
        (n : ℕ)
        → until ≤ now + peer_poll_interval * n
        → n < length (look ∷ looks)
        → look.now < look.until
        → ((m : ℕ)
            → until ≤ look.now + min (until - look.now) peer_poll_interval + peer_poll_interval * m
            → m < length looks
            → Answered (wait_for_cooldown looks) looks)
        → Answered (wait_for_cooldown looks) looks
    later_looks zero near enough early again = absurd (omega (arith, same))
    later_looks (suc n) near enough early again = again n (omega (arith, same)) (omega arith)
