-- ===== src/Session/Lifecycle/Tasks.antt =====
-- About the tasks that are left: who will wake a socket or a process.
use ezviz_stream_bridge.Prelude.{
  ℕ, ◌≡◌, refl, sym, ap, ◌∙◌, Bool, true, false, ◌||◌, Option, none, some, List, [], ◌∷◌, ◌++◌,
  ◌==◌, arith, if◌then◌else◌,
}
use mathlib.Core.Option.{some-injective}
use ezviz_stream_bridge.Rtp.Detect.{contains}
use ezviz_stream_bridge.Session.Lifecycle.{
  Task, registers_socket, shuts_socket, registers_process, stops_process, wakes, Session,
}

abbrev pub is_some_number : ℕ → Option ℕ → Bool
is_some_number n none = false
is_some_number n (some m) = n == m

-- The tasks that shut a socket down.
abbrev pub will_shut : ℕ → Task → Bool
will_shut sock (registers_socket s) = false
will_shut sock (shuts_socket s) = sock == s
will_shut sock (registers_process p) = false
will_shut sock (stops_process p) = false
will_shut sock (wakes s p) = is_some_number sock s

-- The tasks that tell a process to end.
abbrev pub will_tell : ℕ → Task → Bool
will_tell process (registers_socket s) = false
will_tell process (shuts_socket s) = false
will_tell process (registers_process p) = false
will_tell process (stops_process p) = process == p
will_tell process (wakes s p) = is_some_number process p

abbrev pub any_task : (Task → Bool) → List Task → Bool
any_task test [] = false
any_task test (task ∷ tasks) = test task || any_task test tasks

pub or_assoc : (a b c : Bool) → ((a || b) || c) ≡ (a || (b || c))
or_assoc true b c = refl
or_assoc false b c = refl

pub any_task-append :
    (test : Task → Bool) (xs ys : List Task)
    → any_task test (xs ++ ys) ≡ (any_task test xs || any_task test ys)
any_task-append test [] ys = refl
any_task-append test (x ∷ xs) ys =
    ap (λ b. test x || b) (any_task-append test xs ys)
    ∙ sym (or_assoc (test x) (any_task test xs) (any_task test ys))

abbrev pub socket_woken : ℕ → Session → Bool
socket_woken sock s = contains s.shut sock || any_task (will_shut sock) s.tasks

-- Told to end, or ended.
abbrev pub is_told : ℕ → Session → Bool
is_told process s = contains s.told process || contains s.exited process

abbrev pub process_woken : ℕ → Session → Bool
process_woken process s = is_told process s || any_task (will_tell process) s.tasks

-- `done || (before || (task || after))`, where the task is done.
pub one_done :
    (done done' before task new after : Bool)
    → ((done || task) ≡ true → (done' || new) ≡ true)
    → (done || (before || (task || after))) ≡ true
    → (done' || (before || (new || after))) ≡ true
one_done true done' before task new after h e = ground (arith, h refl)
one_done false done' true task new after h e = ground arith
one_done false done' false true new after h e = ground (arith, h refl)
one_done false done' false false new after h e = ground arith

pub contains_self : (n : ℕ) (ns : List ℕ) → contains (n ∷ ns) n ≡ true
unfolding contains
contains_self n ns = ground arith

pub is_some_number_self : (n : ℕ) (o : Option ℕ) → o ≡ some n → is_some_number n o ≡ true
is_some_number_self n none e = cc
is_some_number_self n (some m) e = ground (arith, some-injective m n e)

-- The same for the lists that a task is taken out of.
pub task_done :
    (test : Task → Bool) (done done' : Bool) (tasks before after new : List Task) (task : Task)
    → tasks ≡ before ++ (task ∷ after)
    → ((done || test task) ≡ true → (done' || any_task test new) ≡ true)
    → (done || any_task test tasks) ≡ true
    → (done' || any_task test (before ++ (new ++ after))) ≡ true
task_done test done done' tasks before after new task e h covered =
    let was = ap (any_task test) e ∙ any_task-append test before (task ∷ after) in
    let is =
      any_task-append test before (new ++ after)
      ∙ ap (λ b. any_task test before || b) (any_task-append test new after) in
    ap (λ b. done' || b) is
    ∙ one_done done done' (any_task test before) (test task) (any_task test new)
        (any_task test after) h (sym (ap (λ b. done || b) was) ∙ covered)

pub or_true : (a : Bool) → (a || true) ≡ true
or_true true = refl
or_true false = refl

pub new_shuts :
    (sock : ℕ) (b : Bool)
    → b ≡ true
    → any_task (will_shut sock) (if b then shuts_socket sock ∷ [] else []) ≡ true
new_shuts sock true e = ground arith
new_shuts sock false e = cc

pub new_stops :
    (process : ℕ) (b : Bool)
    → b ≡ true
    → any_task (will_tell process) (if b then stops_process process ∷ [] else []) ≡ true
new_stops process true e = ground arith
new_stops process false e = cc

pub shuts_nothing :
    (sock process : ℕ) (b : Bool)
    → any_task (will_shut sock) (if b then stops_process process ∷ [] else []) ≡ false
shuts_nothing sock process true = refl
shuts_nothing sock process false = refl

pub tells_nothing :
    (process sock : ℕ) (b : Bool)
    → any_task (will_tell process) (if b then shuts_socket sock ∷ [] else []) ≡ false
tells_nothing process sock true = refl
tells_nothing process sock false = refl

-- What a new task does is about to be done.
pub new_found :
    (test : Task → Bool) (done : Bool) (before new after : List Task)
    → any_task test new ≡ true
    → (done || any_task test (before ++ (new ++ after))) ≡ true
new_found test done before new after e =
    let split = any_task-append test before (new ++ after) in
    let split' = any_task-append test new after in
    ap (λ b. done || b)
      (split ∙ ap (λ b. any_task test before || b) (split' ∙ ap (λ b. b || any_task test after) e))
    ∙ ground (arith, or_true (any_task test before), or_true done)
