-- ===== src/Supervisor/Restarts.antt =====
-- About one pass of `_reconcile` over one camera.
use ezviz_stream_bridge.Prelude.{
  ℕ, ◌+◌, ◌-◌, ◌≤◌, ◌<◌, ◌≡◌, ◌⊎◌, refl, Bool, true, false, Option, none, some, arith, ltb, leb,
  if◌then◌else◌, inl, inr, Bool-cases, ltb→lt, ltb_false→le,
}
use ezviz_stream_bridge.Supervisor.{
  Proxy, healthy_after, backoff, schedule_retry, note_exit, Ensured, ensured, mfa_required,
  ensure_failed, Answers, Flags, start, attempt, reconcile_proxy,
}
use ezviz_stream_bridge.Supervisor.Backoff.{backoff-some}

-- The failures that count once an exit was noted: a long run forgets the earlier ones.
abbrev pub failures_after : Proxy → ℕ → ℕ
failures_after proxy ended =
    if leb healthy_after (ended - proxy.started_at) then 1 else proxy.failures + 1

-- What one pass over one camera may do.
pub data Pass (answers : Answers) : Proxy → Flags → Proxy → Flags → Type 0 where
  -- A live process is left alone.
  lives :
      {proxy : Proxy} {flags : Flags} {pid : ℕ}
      → proxy.process ≡ some pid
      → answers.alive ≡ true
      → Pass answers proxy flags proxy flags
  -- A dead one is forgotten and counted, and its camera waits for the delay of its failures.
  exits :
      {proxy after : Proxy} {flags flags' : Flags} {pid delay : ℕ}
      → proxy.process ≡ some pid
      → answers.alive ≡ false
      → backoff (failures_after proxy answers.ended) ≡ some delay
      → Pass answers
          (record proxy {
            process = none;
            failures = failures_after proxy answers.ended;
            logged_wait = false;
            next_attempt_at = answers.noted + delay;
          })
          flags
          after
          flags'
      → Pass answers proxy flags after flags'
  -- Before its time a camera without a process waits.
  waits :
      {proxy : Proxy} {flags : Flags}
      → proxy.process ≡ none
      → answers.checked < proxy.next_attempt_at
      → Pass answers proxy flags (record proxy { logged_wait = true }) flags
  -- From then on it starts, where the token and the operating system allow it ...
  starts :
      {proxy : Proxy} {flags : Flags} {pid : ℕ}
      → proxy.process ≡ none
      → proxy.next_attempt_at ≤ answers.checked
      → answers.token ≡ ensured
      → answers.spawned ≡ some pid
      → Pass answers proxy flags
          (record proxy { process = some pid; started_at = answers.acted; logged_wait = false })
          flags
  -- ... and where they do not, it is one more failure, with its delay ...
  retries :
      {proxy : Proxy} {flags : Flags} {delay : ℕ}
      → proxy.process ≡ none
      → proxy.next_attempt_at ≤ answers.checked
      → (answers.token ≡ ensure_failed) ⊎ ((answers.token ≡ ensured) × (answers.spawned ≡ none))
      → backoff (proxy.failures + 1) ≡ some delay
      → Pass answers proxy flags
          (record proxy {
            failures = proxy.failures + 1;
            logged_wait = false;
            next_attempt_at = answers.acted + delay;
          })
          flags
  -- ... but for the verification code that nobody can enter, which stops the supervisor.
  gives_up :
      {proxy : Proxy} {flags : Flags}
      → proxy.process ≡ none
      → proxy.next_attempt_at ≤ answers.checked
      → answers.token ≡ mfa_required
      → Pass answers proxy flags proxy (record { stopping = true; fatal = true })

-- A pass that returns.
pub data Returns (answers : Answers) (proxy : Proxy) (flags : Flags)
    : Option (Proxy × Flags) → Type 0 where
  returns :
      {after : Proxy} {flags' : Flags}
      → Pass answers proxy flags after flags'
      → Returns answers proxy flags (some (after, flags'))

retried :
    (answers : Answers) (proxy : Proxy) (flags : Flags)
    → proxy.process ≡ none
    → proxy.next_attempt_at ≤ answers.checked
    → (answers.token ≡ ensure_failed) ⊎ ((answers.token ≡ ensured) × (answers.spawned ≡ none))
    → proxy.failures ≤ 1023
    → Returns answers proxy flags (elim (schedule_retry proxy answers.acted) [
      | none ↦ none
      | some again ↦ some (again, flags)
    ])
unfolding schedule_retry
retried answers proxy flags idle due why few =
    let (delay, e, low, high) = backoff-some (proxy.failures + 1) (omega arith) in
    rw e (returns (retries idle due why e))

start-mfa :
    (answers : Answers) (proxy : Proxy) (flags : Flags)
    → answers.token ≡ mfa_required
    → start proxy flags answers ≡ some (proxy, record { stopping = true; fatal = true })
unfolding start
start-mfa answers proxy flags e = ground arith

start-ensured :
    (answers : Answers) (proxy : Proxy) (flags : Flags) (pid : ℕ)
    → answers.token ≡ ensured
    → answers.spawned ≡ some pid
    → start proxy flags answers
      ≡ some (
        record proxy { process = some pid; started_at = answers.acted; logged_wait = false },
        flags,
      )
unfolding start
start-ensured answers proxy flags pid e f = ground arith

abbrev pub Failing : Answers → Type 0
Failing answers =
    (answers.token ≡ ensure_failed) ⊎ ((answers.token ≡ ensured) × (answers.spawned ≡ none))

pub start-Failing :
    (answers : Answers) (proxy : Proxy) (flags : Flags)
    → Failing answers
    → start proxy flags answers
      ≡ elim (schedule_retry proxy answers.acted) [ none ↦ none | some again ↦ some (again, flags) ]
unfolding start
start-Failing answers proxy flags why = ground arith

start-Pass :
    (answers : Answers) (proxy : Proxy) (flags : Flags)
    → proxy.process ≡ none
    → proxy.next_attempt_at ≤ answers.checked
    → proxy.failures ≤ 1023
    → Returns answers proxy flags (start proxy flags answers)
start-Pass answers proxy flags idle due few = go answers.token refl answers.spawned refl
  where
    fails : Failing answers → Returns answers proxy flags (start proxy flags answers)
    fails why =
        let s = start-Failing answers proxy flags why in
        rw s (retried answers proxy flags idle due why few)

    go :
        (t : Ensured)
        → answers.token ≡ t
        → (o : Option ℕ) → answers.spawned ≡ o
        → Returns answers proxy flags (start proxy flags answers)
    go mfa_required e o f = rw (start-mfa answers proxy flags e) (returns (gives_up idle due e))
    go ensure_failed e o f = fails (inl e)
    go ensured e none f = fails (inr (e, f))
    go ensured e (some pid) f =
        rw (start-ensured answers proxy flags pid e f) (returns (starts idle due e f))

attempt-Pass :
    (answers : Answers) (proxy : Proxy) (flags : Flags)
    → proxy.process ≡ none
    → proxy.failures ≤ 1023
    → Returns answers proxy flags (attempt proxy flags answers)
unfolding attempt
attempt-Pass answers proxy flags idle few =
    elim (Bool-cases (ltb answers.checked proxy.next_attempt_at)) [
      | inl early ↦ rw early (returns (waits idle (ltb→lt _ _ early)))
      | inr late ↦ rw late (start-Pass answers proxy flags idle (ltb_false→le _ _ late) few)
    ]

after_exit :
    {answers : Answers} {proxy : Proxy} {flags : Flags} {pid delay : ℕ}
    → proxy.process ≡ some pid
    → answers.alive ≡ false
    → backoff (failures_after proxy answers.ended) ≡ some delay
    → (o : Option (Proxy × Flags))
    → Returns answers
        (record proxy {
          process = none;
          failures = failures_after proxy answers.ended;
          logged_wait = false;
          next_attempt_at = answers.noted + delay;
        })
        flags
        o
    → Returns answers proxy flags o
after_exit up dead e o (returns pass) = returns (exits up dead e pass)

few_failures :
    (proxy : Proxy) (ended : ℕ) → proxy.failures ≤ 1022 → failures_after proxy ended ≤ 1023
few_failures proxy ended h = ground arith

note_exit-delay :
    (proxy : Proxy) (ended now delay : ℕ)
    → backoff (failures_after proxy ended) ≡ some delay
    → note_exit proxy ended now
      ≡ some (record proxy {
        process = none;
        failures = failures_after proxy ended;
        logged_wait = false;
        next_attempt_at = now + delay;
      })
unfolding note_exit schedule_retry
note_exit-delay proxy ended now delay e =
    elim (Bool-cases (leb healthy_after (ended - proxy.started_at))) [
      | inl long ↦ ground arith
      | inr short ↦ ground arith
    ]

dead-Pass :
    (answers : Answers) (proxy : Proxy) (flags : Flags) (pid : ℕ)
    → proxy.process ≡ some pid
    → answers.alive ≡ false
    → proxy.failures ≤ 1022
    → Returns answers proxy flags (elim (note_exit proxy answers.ended answers.noted) [
      | none ↦ none
      | some noted ↦ attempt noted flags answers
    ])
dead-Pass answers proxy flags pid up dead few =
    let h = few_failures proxy answers.ended few in
    let (delay, e, low, high) =
      backoff-some (failures_after proxy answers.ended) (omega (arith, h)) in
    rw (note_exit-delay proxy answers.ended answers.noted delay e)
      (after_exit up dead e _ (attempt-Pass answers _ flags refl h))

pass-lives :
    (answers : Answers) (proxy : Proxy) (flags : Flags) (pid : ℕ)
    → proxy.process ≡ some pid
    → answers.alive ≡ true
    → reconcile_proxy proxy flags answers ≡ some (proxy, flags)
unfolding reconcile_proxy
pass-lives answers proxy flags pid e f = ground arith

pass-dead :
    (answers : Answers) (proxy : Proxy) (flags : Flags) (pid : ℕ)
    → proxy.process ≡ some pid
    → answers.alive ≡ false
    → reconcile_proxy proxy flags answers ≡ elim (note_exit proxy answers.ended answers.noted) [
      | none ↦ none
      | some noted ↦ attempt noted flags answers
    ]
unfolding reconcile_proxy
pass-dead answers proxy flags pid e f = ground arith

pub pass-idle :
    (answers : Answers) (proxy : Proxy) (flags : Flags)
    → proxy.process ≡ none
    → reconcile_proxy proxy flags answers ≡ attempt proxy flags answers
unfolding reconcile_proxy
pass-idle answers proxy flags e = ground arith

-- As long as a camera has at most 1022 failures in a row, a pass over it returns, and does what
-- `Pass` says: a live process is left alone, a dead one is counted and waits for the delay of its
-- failures, a camera without a process starts when its delay is over and not before, each failed
-- start is counted and delayed, and only the missing verification code sets the two flags.
pub reconcile_proxy-Pass :
    (answers : Answers) (proxy : Proxy) (flags : Flags)
    → proxy.failures ≤ 1022
    → Returns answers proxy flags (reconcile_proxy proxy flags answers)
reconcile_proxy-Pass answers proxy flags few = go proxy.process refl answers.alive refl
  where
    go :
        (o : Option ℕ)
        → proxy.process ≡ o
        → (b : Bool) → answers.alive ≡ b
        → Returns answers proxy flags (reconcile_proxy proxy flags answers)
    go none e b f =
        rw (pass-idle answers proxy flags e) (attempt-Pass answers proxy flags e (omega arith))
    go (some pid) e true f = rw (pass-lives answers proxy flags pid e f) (returns (lives e f))
    go (some pid) e false f =
        rw (pass-dead answers proxy flags pid e f) (dead-Pass answers proxy flags pid e f few)
