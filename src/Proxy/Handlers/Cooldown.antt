-- ===== src/Proxy/Handlers/Cooldown.antt =====
-- About the cooldown, which keeps the camera asleep after a timeout.
use ezviz_stream_bridge.Prelude.{
  ℕ, ◌+◌, ◌≤◌, ◌≡◌, max, refl, Bool, true, false, List, [], ◌∷◌, All, arith, ==→eq, ◌==◌,
  if◌then◌else◌,
}
use ezviz_stream_bridge.Proxy.{
  ProxyServer, start_cooldown, Look, is_over, cooldown_round, Handled, fail_get,
}
use ezviz_stream_bridge.Proxy.Handlers.{
  World, idle_world, look_at, note_timeout, Step, passes, arrives, goes_on, settles, leaves,
  Reaches, here, next,
}

All-weaken :
    {A : Type 0} (P Q : A → Type 0) → ((a : A) → P a → Q a) → (xs : List A) → All P xs → All Q xs
All-weaken P Q f [] h = tt
All-weaken P Q f (x ∷ xs) (p, h) = (f x p, All-weaken P Q f xs h)

-- A camera timeout that was caught in the past, and whose cooldown is still kept.
record IsKept (cooldown until now time : ℕ) : Type 0 where
  past : time ≤ now
  kept : time + cooldown ≤ max until now

-- Every camera timeout that was caught is kept.
record IsCooling (cooldown : ℕ) (s : ProxyServer) (now : ℕ) (timeouts : List ℕ) : Type 0 where
  same : s.timeout_cooldown ≡ cooldown
  all_kept : All (IsKept cooldown s.cooldown_until now) timeouts

-- A cooldown that begins now outlasts all others.
start_cooldown-IsCooling :
    (cooldown now : ℕ) (s : ProxyServer) (timeouts : List ℕ)
    → IsCooling cooldown s now timeouts
    → IsCooling cooldown (start_cooldown now s) now (now ∷ timeouts)
unfolding start_cooldown
start_cooldown-IsCooling cooldown now s timeouts h = go (s.timeout_cooldown == 0) refl
  where
    go :
        (off : Bool)
        → (s.timeout_cooldown == 0) ≡ off
        → IsCooling cooldown
            (if off then s else record s { cooldown_until = now + s.timeout_cooldown })
            now
            (now ∷ timeouts)
    go true e =
        let none_ = ==→eq s.timeout_cooldown 0 e in
        record {
          same = h.same;
          all_kept =
              (record { past = omega arith; kept = omega (arith, none_, h.same) }, h.all_kept);
        }
    go false e = record {
      same = h.same;
      all_kept = (
        record { past = omega arith; kept = omega (arith, h.same) },
        All-weaken (IsKept cooldown s.cooldown_until now)
            (IsKept cooldown (now + s.timeout_cooldown) now)
            (λ time k. record { past = k.past; kept = omega (arith, k.past, h.same) }) timeouts
            h.all_kept,
      );
    }

fail_get-IsCooling :
    (cooldown now : ℕ) (handled : Handled) (s : ProxyServer) (timeouts : List ℕ)
    → IsCooling cooldown s now timeouts
    → IsCooling cooldown (fail_get now handled s) now (note_timeout handled now timeouts)
fail_get-IsCooling cooldown now handled s timeouts h = go handled.starts_cooldown
  where
    go :
        (starts : Bool)
        → IsCooling cooldown
            (if starts then start_cooldown now s else s)
            now
            (if starts then now ∷ timeouts else timeouts)
    go true = start_cooldown-IsCooling cooldown now s timeouts h
    go false = h

abbrev IsCool : ℕ → World → Type 0
IsCool cooldown w = IsCooling cooldown w.server w.now w.timeouts

Step-IsCool : (cooldown : ℕ) {w w' : World} → Step w w' → IsCool cooldown w → IsCool cooldown w'
Step-IsCool cooldown (passes w time) h = record {
  same = h.same;
  all_kept =
      All-weaken (IsKept cooldown w.server.cooldown_until w.now)
        (IsKept cooldown w.server.cooldown_until (w.now + time))
        (λ t k. record { past = omega (arith, k.past); kept = omega (arith, k.kept) }) w.timeouts
        h.all_kept;
}
Step-IsCool cooldown (arrives w) h = record { same = h.same; all_kept = h.all_kept }
Step-IsCool cooldown (goes_on w before after e over) h = record {
  same = h.same;
  all_kept = h.all_kept;
}
Step-IsCool cooldown (settles w before after attempt handled tried e) h =
    fail_get-IsCooling cooldown w.now handled w.server w.timeouts h
Step-IsCool cooldown (leaves w before after e) h = record { same = h.same; all_kept = h.all_kept }

Reaches-IsCool : (cooldown : ℕ) {w : World} → Reaches (idle_world cooldown) w → IsCool cooldown w
Reaches-IsCool cooldown here = record { same = refl; all_kept = tt }
Reaches-IsCool cooldown (next reached step) =
    Step-IsCool cooldown step (Reaches-IsCool cooldown reached)

is_over-le : (look : Look) → cooldown_round look ≡ is_over → look.until ≤ look.now
unfolding cooldown_round
is_over-le look e = ground arith

-- In whatever order the steps of a server's handlers come, a handler that finds the cooldown over, and
-- so goes on to open a session, does so no sooner than the whole cooldown after each camera timeout
-- that any handler has caught.
pub goes_on_after_cooldown :
    (timeout_cooldown : ℕ) {w : World}
    → Reaches (idle_world timeout_cooldown) w
    → cooldown_round (look_at w false) ≡ is_over
    → All (λ time. time + timeout_cooldown ≤ w.now) w.timeouts
goes_on_after_cooldown timeout_cooldown {w} reached over =
    let cool = Reaches-IsCool timeout_cooldown reached in
    let ended = is_over-le (look_at w false) over in
    All-weaken (IsKept timeout_cooldown w.server.cooldown_until w.now)
      (λ time. time + timeout_cooldown ≤ w.now) (λ time k. omega (arith, k.kept, ended)) w.timeouts
      cool.all_kept
