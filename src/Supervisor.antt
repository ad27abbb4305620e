-- ===== src/Supervisor.antt =====
-- ezviz_stream_bridge/supervisor.py: `_Proxy` and `Supervisor`. Times are whole milliseconds. What
-- the operating system, the clock and the token store answer during a pass is an argument.
pub mod Backoff
pub mod Restarts
pub mod Outage
pub mod Shutdown
use ezviz_stream_bridge.Prelude.{
  ℕ, ◌+◌, ◌-◌, ◌*◌, ◌^◌, min, Bool, true, false, ◌||◌, Option, none, some, List, [], ◌∷◌, ltb, leb,
  if◌then◌else◌,
}

abbrev pub first_backoff : ℕ
first_backoff = 5000

abbrev pub max_backoff : ℕ
max_backoff = 300000

abbrev pub healthy_after : ℕ
healthy_after = 120000

-- `process` is the `Popen` object, by its pid.
pub record Proxy : Type 0 where
  pub serial : ℕ
  pub process : Option ℕ
  pub started_at : ℕ
  pub failures : ℕ
  pub next_attempt_at : ℕ
  pub logged_wait : Bool

abbrev pub new_proxy : ℕ → Proxy
new_proxy serial = record {
  serial = serial;
  process = none;
  started_at = 0;
  failures = 0;
  next_attempt_at = 0;
  logged_wait = false;
}

-- `2 ** exponent` as an operand of a float product: Python converts the integer first, and raises
-- `OverflowError`, here `none`, where no finite float holds it, from 2 ** 1024 on.
abbrev pub power_as_float : ℕ → Option ℕ
power_as_float exponent = if ltb exponent 1024 then some (2 ^ exponent) else none

-- The property `backoff`.
unfoldable pub backoff : ℕ → Option ℕ
backoff failures =
    if leb failures 1 then some first_backoff else elim (power_as_float (failures - 1)) [
      | none ↦ none
      | some power ↦ some (min (first_backoff * power) max_backoff)
    ]

-- One more failure, and the next attempt after its backoff: `proxy.failures += 1`,
-- `logged_wait = False`, `next_attempt_at = self._clock() + proxy.backoff`. `none` is the
-- `OverflowError` of `backoff`, which nothing catches.
unfoldable pub schedule_retry : Proxy → ℕ → Option Proxy
schedule_retry proxy now = elim (backoff (proxy.failures + 1)) [
  | none ↦ none
  | some delay ↦ some (record proxy {
    failures = proxy.failures + 1;
    logged_wait = false;
    next_attempt_at = now + delay;
  })
]

-- `_note_exit`; `ended` and `now` are its two readings of the clock.
unfoldable pub note_exit : Proxy → ℕ → ℕ → Option Proxy
note_exit proxy ended now =
    schedule_retry
      (record proxy {
        process = none;
        failures = if leb healthy_after (ended - proxy.started_at) then 0 else proxy.failures;
      })
      now

-- What `TokenStore.ensure` does: it returns, it raises `MfaRequiredError`, or another exception.
pub data Ensured : Type 0 where
  ensured mfa_required ensure_failed : Ensured

-- What the environment answers in one pass over one camera: whether its process is alive, the
-- token store, the pid that `Popen` returns or its `OSError`, and the readings of the clock.
pub record Answers : Type 0 where
  pub alive : Bool
  pub token : Ensured
  pub spawned : Option ℕ
  pub ended : ℕ
  pub noted : ℕ
  pub checked : ℕ
  pub acted : ℕ

-- The flags `_stopping` and `_fatal`.
pub record Flags : Type 0 where
  pub stopping : Bool
  pub fatal : Bool

-- `_start`
unfoldable pub start : Proxy → Flags → Answers → Option (Proxy × Flags)
start proxy flags answers = elim answers.token [
  | mfa_required ↦ some (proxy, record { stopping = true; fatal = true })
  | ensure_failed ↦ elim (schedule_retry proxy answers.acted) [
    | none ↦ none
    | some retried ↦ some (retried, flags)
  ]
  | ensured ↦ elim answers.spawned [
    | none ↦ elim (schedule_retry proxy answers.acted) [
      | none ↦ none
      | some retried ↦ some (retried, flags)
    ]
    | some pid ↦ some (
      record proxy { process = some pid; started_at = answers.acted; logged_wait = false },
      flags,
    )
  ]
]

-- The rest of the loop's body in `_reconcile`, once the exit was noted.
unfoldable pub attempt : Proxy → Flags → Answers → Option (Proxy × Flags)
unfolding start
attempt proxy flags answers =
    if ltb answers.checked proxy.next_attempt_at
    then some (record proxy { logged_wait = true }, flags)
    else start proxy flags answers

-- The loop's body in `_reconcile`, for one camera.
unfoldable pub reconcile_proxy : Proxy → Flags → Answers → Option (Proxy × Flags)
unfolding attempt note_exit
reconcile_proxy proxy flags answers = elim proxy.process [
  | none ↦ attempt proxy flags answers
  | some pid ↦
      if answers.alive
      then some (proxy, flags)
      else elim (note_exit proxy answers.ended answers.noted) [
        | none ↦ none
        | some noted ↦ attempt noted flags answers
      ]
]

-- `_reconcile`: one pass over all cameras; it does not look at `_stopping` between them.
unfoldable pub reconcile : List Proxy → Flags → List Answers → Option (List Proxy × Flags)
reconcile [] flags answers = some ([], flags)
reconcile (proxy ∷ proxies) flags [] = some (proxy ∷ proxies, flags)
reconcile (proxy ∷ proxies) flags (answer ∷ answers) = elim (reconcile_proxy proxy flags answer) [
  | none ↦ none
  | some (proxy', flags') ↦ elim (reconcile proxies flags' answers) [
    | none ↦ none
    | some (proxies', flags'') ↦ some (proxy' ∷ proxies', flags'')
  ]
]

-- What happens between two tests of `_stopping` in `run`: whether a signal arrived (`_on_signal`),
-- and what the environment answers to the pass over the cameras.
pub record Tick : Type 0 where
  pub signalled : Bool
  pub answers : List Answers

-- The loop of `run`: passes until `_stopping` is set. A signal only sets that flag, and a pass does
-- not read it, so a signal during a pass counts as one before the next test.
unfoldable pub supervise : List Proxy → Flags → List Tick → Option (List Proxy × Flags)
unfolding reconcile
supervise proxies flags [] = some (proxies, flags)
supervise proxies flags (tick ∷ ticks) =
    if flags.stopping || tick.signalled
    then some (proxies, record flags { stopping = true })
    else elim (reconcile proxies flags tick.answers) [
      | none ↦ none
      | some (proxies', flags') ↦ supervise proxies' flags' ticks
    ]

-- The exit code of `run`.
unfoldable pub exit_code : Flags → ℕ
exit_code flags = if flags.fatal then 1 else 0
