-- ===== src/Session/Lifecycle/Woken.antt =====
-- About an abort: what it wakes.
use ezviz_stream_bridge.Prelude.{
  ℕ, ◌≡◌, ◌⊎◌, inl, inr, refl, ap, ◌∙◌, Bool, true, false, ◌||◌, Option, none, some, List, [], ◌∷◌,
  ◌++◌, ◌==◌, Bool-cases, ==→eq, arith, if◌then◌else◌,
}
use mathlib.Core.Path.{subst}
use mathlib.Core.Option.{some-injective}
use ezviz_stream_bridge.Rtp.Detect.{contains}
use ezviz_stream_bridge.Proxy.{AbortReason}
use ezviz_stream_bridge.Session.Lifecycle.{
  Guarded, Task, registers_socket, shuts_socket, registers_process, stops_process, wakes, Session,
  new_session, abort, register_socket, register_process, terminate_running, do_task, Move, aborts,
  connects, launches, exits, goes_on, Reaches, here, next,
}
use ezviz_stream_bridge.Session.Lifecycle.Tasks.{
  is_some_number, will_shut, will_tell, any_task, socket_woken, is_told, process_woken,
  is_some_number_self, task_done, or_true, new_shuts, new_stops, shuts_nothing, tells_nothing,
  new_found,
}

-- Once the session is cancelled, what the lock guards is woken or about to be.
record IsWoken (s : Session) : Type 0 where
  sockets :
      (sock : ℕ)
      → s.guarded.cancelled ≡ true
      → s.guarded.socket ≡ some sock
      → socket_woken sock s ≡ true
  processes :
      (process : ℕ)
      → s.guarded.cancelled ≡ true
      → s.guarded.ffmpeg ≡ some process
      → process_woken process s ≡ true

-- A socket that its task is done for.
shut-done :
    (sock : ℕ) (task : Task) (s : Session)
    → (s.guarded.cancelled ≡ true → s.guarded.socket ≡ some sock → socket_woken sock s ≡ true)
    → (before after : List Task) → s.tasks ≡ before ++ (task ∷ after)
    → (do_task task s).0.guarded.cancelled ≡ true
    → (do_task task s).0.guarded.socket ≡ some sock
    → (contains (do_task task s).0.shut sock
        || any_task (will_shut sock) (before ++ ((do_task task s).1 ++ after)))
      ≡ true
unfolding register_socket register_process contains
shut-done sock (registers_socket r) s h before after e cancelled same =
    subst
      (λ k.
        (contains s.shut k
          || any_task (will_shut k) (before ++ ((register_socket r s.guarded).1 ++ after)))
        ≡ true)
      (some-injective r sock same)
      (new_found (will_shut r) (contains s.shut r) before _ after
        (new_shuts r s.guarded.cancelled cancelled))
shut-done sock (shuts_socket r) s h before after e cancelled same =
    task_done (will_shut sock) (contains s.shut sock) (contains (r ∷ s.shut) sock) s.tasks before
      after [] (shuts_socket r) e (λ d. ground arith) (h cancelled same)
shut-done sock (registers_process p) s h before after e cancelled same =
    task_done (will_shut sock) (contains s.shut sock) (contains s.shut sock) s.tasks before after _
      (registers_process p) e (λ d. ground (arith, shuts_nothing sock p s.guarded.cancelled))
      (h cancelled same)
shut-done sock (stops_process p) s h before after e cancelled same =
    task_done (will_shut sock) (contains s.shut sock) (contains s.shut sock) s.tasks before after []
      (stops_process p) e (λ d. d) (h cancelled same)
shut-done sock (wakes none p) s h before after e cancelled same =
    task_done (will_shut sock) (contains s.shut sock) (contains s.shut sock) s.tasks before after []
      (wakes none p) e (λ d. d) (h cancelled same)
shut-done sock (wakes (some r) p) s h before after e cancelled same =
    task_done (will_shut sock) (contains s.shut sock) (contains (r ∷ s.shut) sock) s.tasks before
      after [] (wakes (some r) p) e (λ d. ground arith) (h cancelled same)

-- A process that has not ended is told to, and one that has is left alone.
terminates :
    (process r : ℕ) (s : Session)
    → (is_told process s || is_some_number process (some r)) ≡ true
    → ((contains (terminate_running (some r) s.exited s.told) process || contains s.exited process)
        || false)
      ≡ true
unfolding contains
terminates process r s d = elim (Bool-cases (contains s.exited r)) [
  | inl ended ↦ rw ended (elim (Bool-cases (process == r)) [
    | inl same ↦ let e = ap (contains s.exited) (==→eq process r same) ∙ ended in ground arith
    | inr other ↦ ground arith
  ])
  | inr runs ↦ rw runs (ground arith)
]

-- A process that its task is done for.
told-done :
    (process : ℕ) (task : Task) (s : Session)
    → (s.guarded.cancelled ≡ true
        → s.guarded.ffmpeg ≡ some process
        → process_woken process s ≡ true)
    → (before after : List Task) → s.tasks ≡ before ++ (task ∷ after)
    → (do_task task s).0.guarded.cancelled ≡ true
    → (do_task task s).0.guarded.ffmpeg ≡ some process
    → (is_told process (do_task task s).0
        || any_task (will_tell process) (before ++ ((do_task task s).1 ++ after)))
      ≡ true
unfolding register_socket register_process contains
told-done process (registers_process r) s h before after e cancelled same =
    subst
      (λ k.
        (is_told k s
          || any_task (will_tell k) (before ++ ((register_process r s.guarded).1 ++ after)))
        ≡ true)
      (some-injective r process same)
      (new_found (will_tell r) (is_told r s) before _ after
        (new_stops r s.guarded.cancelled cancelled))
told-done process (stops_process r) s h before after e cancelled same =
    task_done (will_tell process) (is_told process s)
      (contains (r ∷ s.told) process || contains s.exited process) s.tasks before after []
      (stops_process r) e (λ d. ground arith) (h cancelled same)
told-done process (registers_socket r) s h before after e cancelled same =
    task_done (will_tell process) (is_told process s) (is_told process s) s.tasks before after _
      (registers_socket r) e (λ d. ground (arith, tells_nothing process r s.guarded.cancelled))
      (h cancelled same)
told-done process (shuts_socket r) s h before after e cancelled same =
    task_done (will_tell process) (is_told process s) (is_told process s) s.tasks before after []
      (shuts_socket r) e (λ d. d) (h cancelled same)
told-done process (wakes sock none) s h before after e cancelled same =
    task_done (will_tell process) (is_told process s) (is_told process s) s.tasks before after []
      (wakes sock none) e (λ d. d) (h cancelled same)
told-done process (wakes sock (some r)) s h before after e cancelled same =
    task_done (will_tell process) (is_told process s)
      (contains (terminate_running (some r) s.exited s.told) process || contains s.exited process)
      s.tasks before after [] (wakes sock (some r)) e (terminates process r s) (h cancelled same)

-- An abort of a session that was not cancelled is about to wake what the lock guards.
abort-IsWoken :
    (s : Session) (reason : AbortReason) (b : Bool)
    → s.guarded.cancelled ≡ b
    → IsWoken s
    → (let aborted : Guarded × List Task = if b then (s.guarded, []) else (
      record s.guarded { cancelled = true; abort_reason = some reason },
      wakes s.guarded.socket s.guarded.ffmpeg ∷ [],
    ) in
        IsWoken (record s { guarded = aborted.0; tasks = aborted.1 ++ s.tasks }))
abort-IsWoken s reason true e h = record { sockets = h.sockets; processes = h.processes }
abort-IsWoken s reason false e h = record {
  sockets = λ sock cancelled same.
      ground
        (arith, is_some_number_self sock s.guarded.socket same, or_true (contains s.shut sock));
  processes = λ process cancelled same.
      ground
        (arith, is_some_number_self process s.guarded.ffmpeg same, or_true (is_told process s));
}

Move-IsWoken : {s s' : Session} → Move s s' → IsWoken s → IsWoken s'
unfolding abort contains
Move-IsWoken (aborts s reason) h = abort-IsWoken s reason s.guarded.cancelled refl h
Move-IsWoken (connects s sock) h = record { sockets = h.sockets; processes = h.processes }
Move-IsWoken (launches s process) h = record { sockets = h.sockets; processes = h.processes }
Move-IsWoken (exits s process) h = record {
  sockets = h.sockets;
  processes = λ p cancelled same. let e = h.processes p cancelled same in ground arith;
}
Move-IsWoken (goes_on s before after task e) h = record {
  sockets = λ sock. shut-done sock task s (h.sockets sock) before after e;
  processes = λ process. told-done process task s (h.processes process) before after e;
}

Reaches-IsWoken : {s : Session} → Reaches new_session s → IsWoken s
Reaches-IsWoken here = record { sockets = λ sock e same. cc; processes = λ process e same. cc }
Reaches-IsWoken (next reached step) = Move-IsWoken step (Reaches-IsWoken reached)

-- What is so once the threads have nothing left to do: the socket was shut down.
abbrev pub IsShut : Option ℕ → Session → Type 0
IsShut none s = Unit {0}
IsShut (some sock) s = contains s.shut sock ≡ true

-- The process was told to end, or has ended.
abbrev pub IsEnded : Option ℕ → Session → Type 0
IsEnded none s = Unit {0}
IsEnded (some process) s = (contains s.told process ≡ true) ⊎ (contains s.exited process ≡ true)

-- However an abort, the connecting of sockets and the start of FFmpeg interleave: when the session is
-- cancelled and no thread has anything left to do, the session's socket has been shut down, and its
-- process has been told to end or has ended, also those that came up after the abort.
pub aborted_is_woken :
    {s : Session}
    → Reaches new_session s
    → s.guarded.cancelled ≡ true
    → s.tasks ≡ []
    → IsShut s.guarded.socket s × IsEnded s.guarded.ffmpeg s
aborted_is_woken {s} reached cancelled idle =
    (socket s.guarded.socket refl, process s.guarded.ffmpeg refl)
  where
    socket : (o : Option ℕ) → s.guarded.socket ≡ o → IsShut o s
    socket none e = tt
    socket (some sock) e =
        let covered = (Reaches-IsWoken reached).sockets sock cancelled e in
        let none_left = ap (any_task (will_shut sock)) idle in ground arith

    process : (o : Option ℕ) → s.guarded.ffmpeg ≡ o → IsEnded o s
    process none e = tt
    process (some p) e =
        let covered = (Reaches-IsWoken reached).processes p cancelled e in
        let none_left = ap (any_task (will_tell p)) idle in ground arith
