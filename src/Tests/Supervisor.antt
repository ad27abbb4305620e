-- ===== src/Tests/Supervisor.antt =====
-- ezviz_stream_bridge/supervisor.py in concrete runs.
use ezviz_stream_bridge.Prelude.{
  ◌⊎◌, ℕ, zero, suc, ◌+◌, ◌*◌, ◌≤◌, ◌≡◌, refl, false, none, some, List, [], ◌∷◌, arith, length,
}
use ezviz_stream_bridge.Supervisor.{
  Proxy, new_proxy, ensured, ensure_failed, Answers, reconcile_proxy,
}
use ezviz_stream_bridge.Supervisor.Restarts.{Returns, reconcile_proxy-Pass}
use ezviz_stream_bridge.Supervisor.Outage.{running_flags, AllRefused, attempts, Fate, Outage-Fate}
use ezviz_stream_bridge.Supervisor.Shutdown.{
  Child, shutdown_grace, shutdown_kill_grace, wait_all, shutdown, SomeStays, shutdown_lem,
}

abbrev died : Answers
died = record {
  alive = false;
  token = ensured;
  spawned = some 4711;
  ended = 200000;
  noted = 200001;
  checked = 200002;
  acted = 200003;
}

abbrev had_failed : Proxy
had_failed = record (new_proxy 7) { process = some 4710; failures = 6; started_at = 1000 }

reconcile_proxy-Pass_example :
    Returns died had_failed running_flags (reconcile_proxy had_failed running_flags died)
reconcile_proxy-Pass_example = reconcile_proxy-Pass died had_failed running_flags (omega arith)

-- A pass at the time `at`, for which the token store cannot be used.
abbrev refused_at : ℕ → Answers
refused_at at = record {
  alive = false;
  token = ensure_failed;
  spawned = none;
  ended = 0;
  noted = 0;
  checked = at;
  acted = at;
}

-- Passes that come a second apart.
outage : ℕ → ℕ → List Answers
outage zero at = []
outage (suc n) at = refused_at at ∷ outage n (at + 1000)

outage-AllRefused : (n at : ℕ) → AllRefused (outage n at)
unfolding outage
outage-AllRefused zero at = tt
outage-AllRefused (suc n) at = (refl, outage-AllRefused n (at + 1000))

-- In twenty seconds there are three attempts: at once, after five seconds, and after ten more.
attempts_of_outage : attempts 0 0 (outage 20 0) ≡ 3
unfolding outage
attempts_of_outage = refl

Outage-Fate_example : Fate 0 0 (new_proxy 7) (outage 310000 0)
Outage-Fate_example = Outage-Fate 7 (outage 310000 0) (outage-AllRefused 310000 0)

abbrev prompt : Child
prompt = record { pid = 4711; exits_at = some 4000; reaped_after = 0 }

abbrev stuck : Child
stuck = record { pid = 4712; exits_at = none; reaped_after = 5 }

shutdown_lem_example :
    ((shutdown 1000 (prompt ∷ stuck ∷ [])).clock
      ≤ 1000
        + shutdown_grace
        + shutdown_kill_grace * length (shutdown 1000 (prompt ∷ stuck ∷ [])).killed)
    × (((shutdown 1000 (prompt ∷ stuck ∷ [])).killed ≡ [])
        ⊎ SomeStays (1000 + shutdown_grace) (prompt ∷ stuck ∷ []))
shutdown_lem_example = shutdown_lem 1000 (prompt ∷ stuck ∷ [])

-- One proxy exits in time, the other one is killed at the deadline and reaped at once.
shutdown_two : shutdown 1000 (prompt ∷ stuck ∷ []) ≡ record { clock = 11005; killed = 4712 ∷ [] }
unfolding shutdown wait_all
shutdown_two = refl
