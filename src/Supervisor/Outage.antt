-- ===== src/Supervisor/Outage.antt =====
-- About a long outage of the token store, in `Supervisor.run`.
use mathlib.Core.Path.{subst}
use native.Mathlib.Nat.{pow-suc}
use ezviz_stream_bridge.Prelude.{
  ℕ, zero, suc, ◌+◌, ◌*◌, ◌^◌, ◌≤◌, ◌<◌, ◌≡◌, refl, sym, ap, ◌∙◌, min, true, false, none, some,
  List, [], ◌∷◌, All, arith, ltb, ltb-false, inl, inr, Bool-cases, ltb→lt, ltb_false→le,
}
use ezviz_stream_bridge.Supervisor.{
  Proxy, first_backoff, max_backoff, new_proxy, backoff, schedule_retry, ensure_failed, Answers,
  Flags, start, attempt, reconcile_proxy, reconcile, Tick, supervise,
}
use ezviz_stream_bridge.Supervisor.Backoff.{backoff-suc, backoff_overflow}
use ezviz_stream_bridge.Supervisor.Restarts.{pass-idle, start-Failing}

-- The delay after a failure with `failures` before it: five seconds, and twice as long each time, up
-- to five minutes.
abbrev pub delay_after : ℕ → ℕ
delay_after zero = 5000
delay_after (suc failures) = min (2 * delay_after failures) 300000

-- What the token store answers while it cannot be used, in each of the passes.
abbrev pub AllRefused : List Answers → Type 0
AllRefused passes = All (λ answers. answers.token ≡ ensure_failed) passes

-- How many of the passes are attempts, when the next one is due at the time `due` and `failures`
-- failed before: a pass that comes earlier only waits, and the delay counts from the failure.
abbrev pub attempts : ℕ → ℕ → List Answers → ℕ
attempts failures due [] = 0
attempts failures due (answers ∷ passes) = elim (ltb answers.checked due) [
  | true ↦ attempts failures due passes
  | false ↦ suc (attempts (failures + 1) (answers.acted + delay_after failures) passes)
]

-- The passes of `run` over one camera, without a signal.
abbrev pub ticks_of : List Answers → List Tick
ticks_of [] = []
ticks_of (answers ∷ passes) = record { signalled = false; answers = answers ∷ [] } ∷ ticks_of passes

-- A camera without a process that may be started from the time `due` on.
record Idle (failures due : ℕ) (proxy : Proxy) : Type 0 where
  idle : proxy.process ≡ none
  count : proxy.failures ≡ failures
  next : proxy.next_attempt_at ≡ due

delay_after-power : (n : ℕ) → delay_after n ≡ min (first_backoff * 2 ^ n) max_backoff
delay_after-power zero = refl
delay_after-power (suc n) =
    let doubled : 2 ^ suc n ≡ 2 * 2 ^ n = pow-suc 2 n ∙ omega arith in
    omega (arith, doubled, delay_after-power n)

backoff-delay_after : (n : ℕ) → n < 1024 → backoff (n + 1) ≡ some (delay_after n)
backoff-delay_after n h =
    let next : n + 1 ≡ suc n = omega arith in
    ap backoff next ∙ backoff-suc n h ∙ ap some (sym (delay_after-power n))

abbrev pub running_flags : Flags
running_flags = record { stopping = false; fatal = false }

attempt-due :
    (proxy : Proxy) (flags : Flags) (answers : Answers)
    → proxy.next_attempt_at ≤ answers.checked
    → attempt proxy flags answers ≡ start proxy flags answers
unfolding attempt
attempt-due proxy flags answers due = rw (ltb-false answers.checked proxy.next_attempt_at due) refl

failing_pass :
    (proxy : Proxy) (flags : Flags) (answers : Answers)
    → proxy.process ≡ none
    → answers.token ≡ ensure_failed
    → proxy.next_attempt_at ≤ answers.checked
    → reconcile_proxy proxy flags answers
      ≡ elim (schedule_retry proxy answers.acted) [ none ↦ none | some again ↦ some (again, flags) ]
failing_pass proxy flags answers idle fails due =
    pass-idle answers proxy flags idle
    ∙ attempt-due proxy flags answers due
    ∙ start-Failing answers proxy flags (inl fails)

waiting_pass :
    (failures due : ℕ) (proxy : Proxy) (flags : Flags) (answers : Answers)
    → Idle failures due proxy
    → ltb answers.checked due ≡ true
    → (again : Proxy) × (Idle failures due again)
      × (reconcile_proxy proxy flags answers ≡ some (again, flags))
unfolding attempt
waiting_pass failures due proxy flags answers h early =
    let e = ap (λ t. ltb answers.checked t) h.next ∙ early in
    (
      record proxy { logged_wait = true },
      record { idle = h.idle; count = h.count; next = h.next },
      pass-idle answers proxy flags h.idle ∙ rw e refl,
    )

counted_pass :
    (failures due : ℕ) (proxy : Proxy) (flags : Flags) (answers : Answers)
    → Idle failures due proxy
    → answers.token ≡ ensure_failed
    → ltb answers.checked due ≡ false
    → failures < 1024
    → (again : Proxy) × (Idle (failures + 1) (answers.acted + delay_after failures) again)
      × (reconcile_proxy proxy flags answers ≡ some (again, flags))
unfolding schedule_retry
counted_pass failures due proxy flags answers h fails late few =
    let n = h.count in
    let d = h.next in
    let e : backoff (proxy.failures + 1) ≡ some (delay_after failures) =
      ap (λ n. backoff (n + 1)) n ∙ backoff-delay_after failures few in
    let reached = ltb_false→le answers.checked due late in
    (
      record proxy {
        failures = proxy.failures + 1;
        logged_wait = false;
        next_attempt_at = answers.acted + delay_after failures;
      },
      record { idle = h.idle; count = omega (arith, n); next = refl },
      failing_pass proxy flags answers h.idle fails (omega (arith, d, reached)) ∙ rw e refl,
    )

crashing_pass :
    (due : ℕ) (proxy : Proxy) (flags : Flags) (answers : Answers)
    → Idle 1024 due proxy
    → answers.token ≡ ensure_failed
    → ltb answers.checked due ≡ false
    → reconcile_proxy proxy flags answers ≡ none
unfolding schedule_retry
crashing_pass due proxy flags answers h fails late =
    let n = h.count in
    let d = h.next in
    let e : backoff (proxy.failures + 1) ≡ none =
      backoff_overflow (proxy.failures + 1) (omega (arith, n)) in
    let reached = ltb_false→le answers.checked due late in
    failing_pass proxy flags answers h.idle fails (omega (arith, d, reached)) ∙ rw e refl

tick_some :
    (proxy again : Proxy) (answers : Answers) (ticks : List Tick)
    → reconcile_proxy proxy running_flags answers ≡ some (again, running_flags)
    → supervise
        (proxy ∷ [])
        running_flags
        (record { signalled = false; answers = answers ∷ [] } ∷ ticks)
      ≡ supervise (again ∷ []) running_flags ticks
unfolding supervise reconcile
tick_some proxy again answers ticks e = rw e refl

tick_none :
    (proxy : Proxy) (answers : Answers) (ticks : List Tick)
    → reconcile_proxy proxy running_flags answers ≡ none
    → supervise
        (proxy ∷ [])
        running_flags
        (record { signalled = false; answers = answers ∷ [] } ∷ ticks)
      ≡ none
unfolding supervise reconcile
tick_none proxy answers ticks e = rw e refl

-- How an outage ends for a supervisor of one camera that has `failures` behind it: `run` goes on with
-- no process and every attempt counted, or it raises `OverflowError`.
pub data Fate (failures due : ℕ) (proxy : Proxy) (passes : List Answers) : Type 0 where
  survives :
      (again : Proxy)
      → failures + attempts failures due passes ≤ 1024
      → supervise (proxy ∷ []) running_flags (ticks_of passes) ≡ some (again ∷ [], running_flags)
      → again.process ≡ none
      → again.failures ≡ failures + attempts failures due passes
      → Fate failures due proxy passes
  raises :
      1025 ≤ failures + attempts failures due passes
      → supervise (proxy ∷ []) running_flags (ticks_of passes) ≡ none
      → Fate failures due proxy passes

-- A pass, and how the others end.
after_pass :
    (failures due failures' due' : ℕ) (proxy again : Proxy) (answers : Answers)
    (passes : List Answers)
    → reconcile_proxy proxy running_flags answers ≡ some (again, running_flags)
    → failures' + attempts failures' due' passes
      ≡ failures + attempts failures due (answers ∷ passes)
    → Fate failures' due' again passes
    → Fate failures due proxy (answers ∷ passes)
after_pass failures due failures' due' proxy again answers passes e n
      (survives last few run idle c) =
    survives last (omega (arith, few, n)) (tick_some proxy again answers (ticks_of passes) e ∙ run)
      idle (c ∙ n)
after_pass failures due failures' due' proxy again answers passes e n (raises many run) =
    raises (omega (arith, many, n)) (tick_some proxy again answers (ticks_of passes) e ∙ run)

attempts-early :
    (failures due : ℕ) (answers : Answers) (passes : List Answers)
    → ltb answers.checked due ≡ true
    → attempts failures due (answers ∷ passes) ≡ attempts failures due passes
attempts-early failures due answers passes early = rw (early, attempts) refl

attempts-late :
    (failures due : ℕ) (answers : Answers) (passes : List Answers)
    → ltb answers.checked due ≡ false
    → attempts failures due (answers ∷ passes)
      ≡ suc (attempts (failures + 1) (answers.acted + delay_after failures) passes)
attempts-late failures due answers passes late = rw (late, attempts) refl

Idle-Fate :
    (passes : List Answers) (failures due : ℕ) (proxy : Proxy)
    → AllRefused passes
    → Idle failures due proxy
    → failures ≤ 1024
    → Fate failures due proxy passes
unfolding supervise
Idle-Fate [] failures due proxy refused h few =
    survives proxy (omega arith) refl h.idle (h.count ∙ omega arith)
Idle-Fate (answers ∷ passes) failures due proxy (fails, refused) h few =
    elim (Bool-cases (ltb answers.checked due)) [
      | inl early ↦
          let (again, h', e) = waiting_pass failures due proxy running_flags answers h early in
          after_pass failures due failures due proxy again answers passes e
            (ap (λ n. failures + n) (sym (attempts-early failures due answers passes early)))
            (Idle-Fate passes failures due again refused h' few)
      | inr late ↦ elim (Bool-cases (ltb failures 1024)) [
        | inl below ↦
            let low = ltb→lt failures 1024 below in
            let due' = answers.acted + delay_after failures in
            let (again, h', e) =
              counted_pass failures due proxy running_flags answers h fails late low in
            let n = attempts-late failures due answers passes late in
            after_pass failures due (failures + 1) due' proxy again answers passes e
              (omega (arith, n))
              (Idle-Fate passes (failures + 1) due' again refused h' (omega (arith, low)))
        | inr last ↦
            let high = ltb_false→le failures 1024 last in
            let n : failures ≡ 1024 = omega (arith, high) in
            let h' = subst (λ n. Idle n due proxy) n h in
            let m = attempts-late failures due answers passes late in
            raises (omega (arith, m, n)) (
              tick_none proxy answers (ticks_of passes)
                (crashing_pass due proxy running_flags answers h' fails late))
      ]
    ]

-- While the token store cannot be used, a supervisor of one camera survives up to 1024 attempts, which
-- are the passes that find the delay after the failure before them over: the camera has no process, each
-- attempt is counted, and no flag is set. The attempt after that raises `OverflowError` out of `run`,
-- whatever comes next. The passes in between only wait, however many there are.
pub Outage-Fate :
    (serial : ℕ) (passes : List Answers) → AllRefused passes → Fate 0 0 (new_proxy serial) passes
Outage-Fate serial passes refused =
    Idle-Fate passes 0 0 (new_proxy serial) refused
      (record { idle = refl; count = refl; next = refl }) (omega arith)
