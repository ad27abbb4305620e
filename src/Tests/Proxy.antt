-- ===== src/Tests/Proxy.antt =====
-- ezviz_stream_bridge/proxy.py in concrete runs.
use ezviz_stream_bridge.Prelude.{
  ℕ, ◌+◌, ◌≤◌, ◌≡◌, refl, true, false, none, some, List, [], ◌∷◌, All, arith,
}
use ezviz_stream_bridge.Proxy.{
  Look, wait_for_cooldown, cooldown_round, is_over, start_cooldown, Attempt, Handled,
  camera_timeout, device_exception, try_get, begin_get, fail_get,
}
use ezviz_stream_bridge.Proxy.Waiting.{Clocked, ends, looks_at, Answered, wait_for_cooldown_ends}
use ezviz_stream_bridge.Proxy.Handlers.{
  waiting, streaming, settled, World, idle_world, look_at, passes, arrives, goes_on, settles,
  Reaches, here, next, IsCounted, handlers-IsCounted,
}
use ezviz_stream_bridge.Proxy.Handlers.Cooldown.{goes_on_after_cooldown}

abbrev look : ℕ → Look
look now = record { aborted = false; until = 1200; now = now }

abbrev looks : List Look
looks = look 0 ∷ look 510 ∷ look 1020 ∷ look 1200 ∷ []

looks-Clocked : Clocked 1200 0 looks
looks-Clocked = looks_at (look 0) refl (omega arith) (
    looks_at (look 510) refl (omega arith)
      (looks_at (look 1020) refl (omega arith) (looks_at (look 1200) refl (omega arith) ends)))

wait_for_cooldown_ends_example : Answered (wait_for_cooldown looks) looks
wait_for_cooldown_ends_example =
    wait_for_cooldown_ends 1200 0 3 looks looks-Clocked (omega arith) (omega arith)

-- A session that ends with a camera timeout.
abbrev bad_attempt : Attempt
bad_attempt = record {
  headers_raise = none;
  looks = record { aborted = false; until = 0; now = 0 } ∷ [];
  aborted_after = false;
  run_raises = some device_exception;
  abort_reason = none;
}

abbrev handled : Handled
handled = record {
  reason = camera_timeout;
  session_opened = true;
  starts_cooldown = true;
  propagates = false;
}

attempt_handled : try_get bad_attempt ≡ some handled
unfolding try_get wait_for_cooldown cooldown_round
attempt_handled = refl

-- A GET, then one that times out, then a third look at the clock thirty seconds later.
abbrev arrived : World
arrived = record (idle_world 30000) {
  server = begin_get (idle_world 30000).server;
  handlers = waiting ∷ [];
}

abbrev opened_first : World
opened_first = record arrived { handlers = streaming ∷ [] }

abbrev later : World
later = record opened_first { now = 0 + 1000 }

abbrev timed_out : World
timed_out = record later {
  server = fail_get 1000 handled later.server;
  handlers = settled ∷ [];
  timeouts = 1000 ∷ [];
}

abbrev woken : World
woken = record timed_out { now = 1000 + 30000 }

arrived_open : cooldown_round (look_at arrived false) ≡ is_over
unfolding cooldown_round
arrived_open = refl

woken_open : cooldown_round (look_at woken false) ≡ is_over
unfolding cooldown_round start_cooldown
woken_open = refl

Reaches-woken : Reaches (idle_world 30000) woken
Reaches-woken =
    next
      (next
        (next
          (next (next here (arrives (idle_world 30000))) (goes_on arrived [] [] refl arrived_open))
          (passes opened_first 1000))
        (settles later [] [] bad_attempt handled attempt_handled refl))
      (passes timed_out 30000)

handlers-IsCounted_example : IsCounted woken
handlers-IsCounted_example = handlers-IsCounted 30000 Reaches-woken

goes_on_after_cooldown_example : All (λ time. time + 30000 ≤ woken.now) woken.timeouts
goes_on_after_cooldown_example = goes_on_after_cooldown 30000 Reaches-woken woken_open
