-- ===== src/Session/Watchdog/Silent.antt =====
-- About an audio input that the camera has stopped feeding.
use mathlib.Core.Path.{subst}
use ezviz_stream_bridge.Prelude.{
  ℕ, zero, suc, ◌+◌, ◌-◌, ◌*◌, ◌≤◌, ◌<◌, ◌≡◌, refl, ap, ◌∙◌, Bool, true, false, Option, none, some,
  List, [], ◌∷◌, ◌++◌, All, arith, length, ltb, ltb→lt, ltb_false→le, lt→ltb, ltb-false, Bool-cases,
  inl, inr, if◌then◌else◌,
}
use ezviz_stream_bridge.Session.Sinks.{
  Sinks, AudioInput, no_input, live, ended, is_live, give_up_input, give_up_audio,
}
use ezviz_stream_bridge.Session.Watchdog.{
  audio_stall, audio_stall_poll, Glance, ends_audio, end_stalled_audio, watch_audio_stall,
}

-- A poll of a session that is not stopped and whose audio input has had nothing since the time `at`.
pub record Quiet (at : ℕ) (poll : Glance) : Type 0 where
  pub runs : poll.stopped ≡ false
  pub has_audio : is_live poll.sinks.audio ≡ true
  pub since : poll.sinks.audio_at ≡ at

-- Polls of an input that is silent since `at`, each at least the poll's interval after the one before,
-- the first one that long after the time `last`.
pub data Silent (at : ℕ) : ℕ → List Glance → Type 0 where
  over : {last : ℕ} → Silent at last []
  goes_on :
      {last : ℕ} {poll : Glance} {polls : List Glance}
      → Quiet at poll
      → last + audio_stall_poll ≤ poll.now
      → Silent at poll.now polls
      → Silent at last (poll ∷ polls)

-- The same from the first poll on that comes after the last data, at any time after it.
pub data Stalled (at : ℕ) : List Glance → Type 0 where
  begins :
      {poll : Glance} {polls : List Glance}
      → Quiet at poll
      → at ≤ poll.now
      → Silent at poll.now polls
      → Stalled at (poll ∷ polls)

-- The input has not been silent for long enough.
abbrev pub IsYoung : Glance → Type 0
IsYoung poll = poll.now ≤ poll.sinks.audio_at + audio_stall

-- A poll of a session that runs on and is fed with audio.
pub record IsFed (poll : Glance) : Type 0 where
  pub runs : poll.stopped ≡ false
  pub has_audio : is_live poll.sinks.audio ≡ true
  pub young : IsYoung poll

-- The thread ended the input at a poll, with `most` before it at most: the first one at which the input
-- had been silent for longer than the limit; and the sinks have no audio input any more.
pub record EndsAudio (started at most : ℕ) (polls : List Glance) : Type 0 where
  pub before : List Glance
  pub poll : Glance
  pub rest : List Glance
  pub cut : polls ≡ before ++ (poll ∷ rest)
  pub soon : length before ≤ most
  pub young : All IsYoung before
  pub silent : at + audio_stall < poll.now
  pub sinks : Sinks
  pub ended_at : Option ℕ
  pub ends : watch_audio_stall started polls ≡ ends_audio sinks ended_at
  pub no_audio : is_live sinks.audio ≡ false
  pub noted : poll.overtaken ≡ false → ended_at ≡ some (poll.noted_at - started)

give_up_input-is_live : (a : AudioInput) → is_live (give_up_input a).0 ≡ false
give_up_input-is_live no_input = refl
give_up_input-is_live (live pipe) = refl
give_up_input-is_live (ended pipe) = refl

is_live-give_up_input : (a : AudioInput) → (give_up_input a).1 ≡ is_live a
is_live-give_up_input no_input = refl
is_live-give_up_input (live pipe) = refl
is_live-give_up_input (ended pipe) = refl

if-some :
    {A : Type 0} (a : A) (b c : Bool) → b ≡ c → c ≡ true → (if b then some a else none) ≡ some a
if-some a b c same given = rw same (rw given refl)

reached :
    {A : Type 0} (stopped has_audio long : Bool) (gone ends rest : A)
    → stopped ≡ false
    → has_audio ≡ true
    → (if stopped then gone else if has_audio then if long then ends else rest else gone)
      ≡ (if long then ends else rest)
reached stopped has_audio long gone ends rest runs has = rw runs (rw has refl)

overtaken_audio :
    (b : Bool) (s : Sinks)
    → b ≡ false
    → is_live s.audio ≡ true
    → is_live (if b then (give_up_audio s).0 else s).audio ≡ true
overtaken_audio b s first has = rw first has

chosen : {A : Type 0} (b c : Bool) (x y : A) → b ≡ c → (if b then x else y) ≡ (if c then x else y)
chosen b c x y e = rw e refl

first_poll :
    (started at most : ℕ) (poll : Glance) (polls : List Glance)
    → Quiet at poll
    → at + audio_stall < poll.now
    → EndsAudio started at most (poll ∷ polls)
unfolding watch_audio_stall end_stalled_audio
first_poll started at most poll polls quiet long =
    let s : Sinks = if poll.overtaken then (give_up_audio poll.sinks).0 else poll.sinks in
    let is_long : ltb audio_stall (poll.now - poll.sinks.audio_at) ≡ true =
      lt→ltb _ _ (omega (arith, long, quiet.since)) in
    record {
      before = [];
      poll = poll;
      rest = polls;
      cut = refl;
      soon = omega arith;
      young = tt;
      silent = long;
      sinks = (give_up_audio s).0;
      ended_at = if (give_up_audio s).1 then some (poll.noted_at - started) else none;
      ends =
          reached poll.stopped (is_live poll.sinks.audio)
            (ltb audio_stall (poll.now - poll.sinks.audio_at)) _ _ _ quiet.runs quiet.has_audio
          ∙ chosen _ true _ _ is_long;
      no_audio = give_up_input-is_live s.audio;
      noted = λ first.
          if-some _ _ _ (is_live-give_up_input s.audio)
            (overtaken_audio poll.overtaken poll.sinks first quiet.has_audio);
    }

later_poll :
    (started at most : ℕ) (poll : Glance) (polls : List Glance)
    → IsFed poll
    → EndsAudio started at most polls
    → EndsAudio started at (suc most) (poll ∷ polls)
unfolding watch_audio_stall
later_poll started at most poll polls fed later =
    let is_short : ltb audio_stall (poll.now - poll.sinks.audio_at) ≡ false =
      ltb-false _ _ (omega (arith, fed.young)) in
    record {
      before = poll ∷ later.before;
      poll = later.poll;
      rest = later.rest;
      cut = ap (λ ps. poll ∷ ps) later.cut;
      soon = omega (arith, later.soon);
      young = (fed.young, later.young);
      silent = later.silent;
      sinks = later.sinks;
      ended_at = later.ended_at;
      ends =
          reached poll.stopped (is_live poll.sinks.audio)
            (ltb audio_stall (poll.now - poll.sinks.audio_at)) _ _ _ fed.runs fed.has_audio
          ∙ chosen _ false _ _ is_short
          ∙ later.ends;
      no_audio = later.no_audio;
      noted = later.noted;
    }

Quiet-IsFed : (at : ℕ) (poll : Glance) → Quiet at poll → poll.now ≤ at + audio_stall → IsFed poll
Quiet-IsFed at poll quiet short = record {
  runs = quiet.runs;
  has_audio = quiet.has_audio;
  young = omega (arith, short, quiet.since);
}

Silent-EndsAudio :
    (started at last most : ℕ) (polls : List Glance)
    → Silent at last polls
    → last ≤ at + audio_stall
    → at + audio_stall < last + audio_stall_poll * suc most
    → suc most ≤ length polls
    → EndsAudio started at most polls
Silent-EndsAudio started at last most [] silent recent paced enough = absurd (omega (arith, enough))
Silent-EndsAudio started at last most (poll ∷ polls) (goes_on quiet later rest) recent paced
      enough =
    elim (Bool-cases (ltb (at + audio_stall) poll.now)) [
      | inl long ↦ first_poll started at most poll polls quiet (ltb→lt _ _ long)
      | inr short ↦
          go most (ltb_false→le _ _ short) paced enough
            (λ n h p e. Silent-EndsAudio started at poll.now n polls rest h p e)
    ]
  where
    go :
        (n : ℕ)
        → poll.now ≤ at + audio_stall
        → at + audio_stall < last + audio_stall_poll * suc n
        → suc n ≤ suc (length polls)
        → ((m : ℕ)
            → poll.now ≤ at + audio_stall
            → at + audio_stall < poll.now + audio_stall_poll * suc m
            → suc m ≤ length polls
            → EndsAudio started at m polls)
        → EndsAudio started at n (poll ∷ polls)
    go zero h p e again = absurd (omega (arith, h, p, later))
    go (suc n) h p e again =
        later_poll started at n poll polls (Quiet-IsFed at poll quiet h)
          (again n h (omega (arith, p, later)) (omega (arith, e)))

-- When an audio input has been fed, and is then silent since the time `at` while the session runs on,
-- the watchdog ends it within the first twelve polls that come after `at` half a second or more apart:
-- at the first one that is more than five seconds after `at`, and at none before. The sinks then have
-- no audio input, and the time is noted unless the pump's thread ended the input first.
pub watch_audio_stall-EndsAudio :
    (started at : ℕ) (earlier polls : List Glance)
    → All IsFed earlier
    → Stalled at polls
    → 12 ≤ length polls
    → EndsAudio started at (length earlier + 11) (earlier ++ polls)
watch_audio_stall-EndsAudio started at [] [] fed stalled enough = elim stalled [ ]
watch_audio_stall-EndsAudio started at [] (poll ∷ polls) fed (begins quiet after_data later)
      enough =
    elim (Bool-cases (ltb (at + audio_stall) poll.now)) [
      | inl long ↦ first_poll started at 11 poll polls quiet (ltb→lt _ _ long)
      | inr short ↦
          let h = ltb_false→le _ _ short in
          later_poll started at 10 poll polls (Quiet-IsFed at poll quiet h) (
            Silent-EndsAudio started at poll.now 10 polls later h (omega (arith, after_data))
              (omega (arith, enough)))
    ]
watch_audio_stall-EndsAudio started at (poll ∷ earlier) polls (first, fed) stalled enough =
    let e : suc (length earlier + 11) ≡ suc (length earlier) + 11 = omega arith in
    subst (λ n. EndsAudio started at n (poll ∷ (earlier ++ polls))) e
      (later_poll started at (length earlier + 11) poll (earlier ++ polls) first
        (watch_audio_stall-EndsAudio started at earlier polls fed stalled enough))
