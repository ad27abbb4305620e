-- ===== src/Proxy/Handlers.antt =====
-- About the handlers of a server, which run at the same time: any interleaving of their steps.
pub mod Cooldown
use ezviz_stream_bridge.Prelude.{
  ℕ, zero, suc, ◌+◌, ◌-◌, ◌*◌, ◌≤◌, ◌<◌, ◌≡◌, ◌⊎◌, max, refl, sym, ap, ◌∙◌, Bool, true, false,
  Option, none, some, List, [], ◌∷◌, ◌++◌, All, arith, length, leb, leb→le, length-append, ◌==◌,
  if◌then◌else◌, Bool-cases, inl, inr,
}
use ezviz_stream_bridge.Proxy.{
  ProxyServer, new_server, start_cooldown, Look, is_gone, is_over, sleeps, cooldown_round, Handled,
  Attempt, begin_get, fail_get, end_get, try_get,
}

-- Where a handler is: in the wait, past it, past its `except` clauses, or past its `finally` block.
pub data Phase : Type 0 where
  waiting streaming settled gone : Phase

-- The server, the clock, the handlers, of which the one in front came last, and the times at which
-- a camera timeout was caught.
pub record World : Type 0 where
  pub server : ProxyServer
  pub now : ℕ
  pub handlers : List Phase
  pub timeouts : List ℕ

abbrev pub idle_world : ℕ → World
idle_world timeout_cooldown = record {
  server = new_server timeout_cooldown;
  now = 0;
  handlers = [];
  timeouts = [];
}

-- What a handler reads in a round of the wait.
abbrev pub look_at : World → Bool → Look
look_at w aborted = record { aborted = aborted; until = w.server.cooldown_until; now = w.now }

-- Where a handler is when its `try` statement ends, by whether it has called `session.run`.
abbrev pub phase_of : Bool → Phase
phase_of true = streaming
phase_of false = waiting

abbrev pub note_timeout : Handled → ℕ → List ℕ → List ℕ
note_timeout handled now timeouts = if handled.starts_cooldown then now ∷ timeouts else timeouts

-- The steps of a world: time passes, a GET arrives, a handler finds the cooldown over, its `try`
-- statement ends, its `finally` block ends.
pub data Step : World → World → Type 0 where
  passes : (w : World) (time : ℕ) → Step w (record w { now = w.now + time })
  arrives :
      (w : World)
      → Step w (record w { server = begin_get w.server; handlers = waiting ∷ w.handlers })
  goes_on :
      (w : World) (before after : List Phase)
      → w.handlers ≡ before ++ (waiting ∷ after)
      → cooldown_round (look_at w false) ≡ is_over
      → Step w (record w { handlers = before ++ (streaming ∷ after) })
  settles :
      (w : World) (before after : List Phase) (attempt : Attempt) (handled : Handled)
      → try_get attempt ≡ some handled
      → w.handlers ≡ before ++ (phase_of handled.session_opened ∷ after)
      → Step w (record w {
        server = fail_get w.now handled w.server;
        handlers = before ++ (settled ∷ after);
        timeouts = note_timeout handled w.now w.timeouts;
      })
  leaves :
      (w : World) (before after : List Phase)
      → w.handlers ≡ before ++ (settled ∷ after)
      → Step w (record w { server = end_get w.server; handlers = before ++ (gone ∷ after) })

pub data Reaches (from : World) : World → Type 0 where
  here : Reaches from from
  next : {w w' : World} → Reaches from w → Step w w' → Reaches from w'

-- The handlers that have not left.
abbrev pub present : Phase → ℕ
present gone = 0
present waiting = 1
present streaming = 1
present settled = 1

abbrev pub count_present : List Phase → ℕ
count_present [] = 0
count_present (phase ∷ handlers) = present phase + count_present handlers

count-split :
    (before after : List Phase) (phase : Phase)
    → count_present (before ++ (phase ∷ after)) ≡ present phase + count_present (before ++ after)
count-split [] after phase = refl
count-split (p ∷ before) after phase = omega (arith, count-split before after phase)

length-split :
    (before after : List Phase) (phase : Phase)
    → length (before ++ (phase ∷ after)) ≡ suc (length (before ++ after))
length-split [] after phase = refl
length-split (p ∷ before) after phase = ap suc (length-split before after phase)

-- What a handler's new phase changes in the counts.
record IsMoved (handlers handlers' : List Phase) (phase phase' : Phase) : Type 0 where
  counts : count_present handlers' + present phase ≡ count_present handlers + present phase'
  lengths : length handlers' ≡ length handlers

move :
    {handlers : List Phase} (before after : List Phase) (phase phase' : Phase)
    → handlers ≡ before ++ (phase ∷ after)
    → IsMoved handlers (before ++ (phase' ∷ after)) phase phase'
move {handlers} before after phase phase' e = record {
  counts =
      let c = ap count_present e in
      omega (arith, c, count-split before after phase, count-split before after phase');
  lengths =
      let l = ap length e in
      omega (arith, l, length-split before after phase, length-split before after phase');
}

-- The server counts its handlers: `active` is the number of those that have not left.
pub record IsCounted (w : World) : Type 0 where
  pub active_present : w.server.active ≡ count_present w.handlers
  pub id_each : w.server.last_id ≡ length w.handlers

start_cooldown-fields :
    (now : ℕ) (s : ProxyServer)
    → ((start_cooldown now s).active ≡ s.active)
      × ((start_cooldown now s).last_id ≡ s.last_id)
      × ((start_cooldown now s).timeout_cooldown ≡ s.timeout_cooldown)
unfolding start_cooldown
start_cooldown-fields now s = go (s.timeout_cooldown == 0)
  where
    go :
        (off : Bool)
        → (let s' : ProxyServer =
              if off then s else record s { cooldown_until = now + s.timeout_cooldown } in
            (s'.active ≡ s.active)
            × (s'.last_id ≡ s.last_id)
            × (s'.timeout_cooldown ≡ s.timeout_cooldown))
    go true = (refl, refl, refl)
    go false = (refl, refl, refl)

fail_get-fields :
    (now : ℕ) (handled : Handled) (s : ProxyServer)
    → ((fail_get now handled s).active ≡ s.active)
      × ((fail_get now handled s).last_id ≡ s.last_id)
      × ((fail_get now handled s).timeout_cooldown ≡ s.timeout_cooldown)
fail_get-fields now handled s = go handled.starts_cooldown
  where
    go :
        (starts : Bool)
        → (let s' : ProxyServer = if starts then start_cooldown now s else s in
            (s'.active ≡ s.active)
            × (s'.last_id ≡ s.last_id)
            × (s'.timeout_cooldown ≡ s.timeout_cooldown))
    go true = start_cooldown-fields now s
    go false = (refl, refl, refl)

present-phase_of : (opened_ : Bool) → present (phase_of opened_) ≡ 1
present-phase_of true = refl
present-phase_of false = refl

Step-IsCounted : {w w' : World} → Step w w' → IsCounted w → IsCounted w'
Step-IsCounted (passes w time) h = record { active_present = h.active_present; id_each = h.id_each }
Step-IsCounted (arrives w) h = record {
  active_present = omega (arith, h.active_present);
  id_each = omega (arith, h.id_each);
}
Step-IsCounted (goes_on w before after e over) h =
    let m = move before after waiting streaming e in
    record {
      active_present = omega (arith, h.active_present, m.counts);
      id_each = omega (arith, h.id_each, m.lengths);
    }
Step-IsCounted (settles w before after attempt handled tried e) h =
    let m = move before after (phase_of handled.session_opened) settled e in
    let (active, id, off) = fail_get-fields w.now handled w.server in
    record {
      active_present =
          active
          ∙ omega (arith, h.active_present, m.counts, present-phase_of handled.session_opened);
      id_each = id ∙ omega (arith, h.id_each, m.lengths);
    }
Step-IsCounted (leaves w before after e) h =
    let m = move before after settled gone e in
    record {
      active_present = omega (arith, h.active_present, m.counts);
      id_each = omega (arith, h.id_each, m.lengths);
    }

-- In whatever order the steps of a server's handlers come, `active` is the number of the handlers
-- that have begun and not left, and the last connection id is the number of GETs that were served.
pub handlers-IsCounted :
    (timeout_cooldown : ℕ) {w : World} → Reaches (idle_world timeout_cooldown) w → IsCounted w
handlers-IsCounted timeout_cooldown here = record { active_present = refl; id_each = refl }
handlers-IsCounted timeout_cooldown (next reached step) =
    Step-IsCounted step (handlers-IsCounted timeout_cooldown reached)
