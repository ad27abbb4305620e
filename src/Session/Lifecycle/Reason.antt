-- ===== src/Session/Lifecycle/Reason.antt =====
-- About the reason of an abort: the first one stays.
use ezviz_stream_bridge.Prelude.{
  ◌≡◌, refl, ap, sym, ◌∙◌, Bool, true, false, some, List, [], ◌∷◌, is_some, if◌then◌else◌,
}
use ezviz_stream_bridge.Proxy.{AbortReason}
use ezviz_stream_bridge.Session.Lifecycle.{
  Guarded, Task, registers_socket, shuts_socket, registers_process, stops_process, wakes, Session,
  new_session, abort, register_socket, register_process, do_task, Move, aborts, connects, launches,
  exits, goes_on, Reaches, here, next,
}

-- A session is cancelled exactly when it has a reason.
abbrev pub IsReasoned : Guarded → Type 0
IsReasoned g = g.cancelled ≡ is_some g.abort_reason

-- A later state of what the lock guards.
record IsLater (g g' : Guarded) : Type 0 where
  reasoned : IsReasoned g'
  stays : (reason : AbortReason) → g.abort_reason ≡ some reason → g'.abort_reason ≡ some reason

same_reason :
    (g g' : Guarded)
    → IsReasoned g
    → g'.cancelled ≡ g.cancelled
    → g'.abort_reason ≡ g.abort_reason
    → IsLater g g'
same_reason g g' h c r = record { reasoned = c ∙ h ∙ ap is_some (sym r); stays = λ reason e. r ∙ e }

abort-IsLater : (reason : AbortReason) (g : Guarded) → IsReasoned g → IsLater g (abort reason g).0
unfolding abort
abort-IsLater reason g h = go g.cancelled refl
  where
    go :
        (b : Bool)
        → g.cancelled ≡ b
        → (let aborted : Guarded × List Task = if b then (g, []) else (
          record g { cancelled = true; abort_reason = some reason },
          wakes g.socket g.ffmpeg ∷ [],
        ) in
            IsLater g aborted.0)
    go true e = same_reason g g h refl refl
    go false e = record {
      reasoned = refl;
      stays = λ first has. let none_yet = ap is_some has in cc;
    }

task-IsLater :
    (task : Task) (s : Session)
    → IsReasoned s.guarded
    → IsLater s.guarded (do_task task s).0.guarded
unfolding register_socket register_process
task-IsLater (registers_socket r) s h =
    same_reason s.guarded (do_task (registers_socket r) s).0.guarded h refl refl
task-IsLater (shuts_socket r) s h = same_reason s.guarded s.guarded h refl refl
task-IsLater (registers_process r) s h =
    same_reason s.guarded (do_task (registers_process r) s).0.guarded h refl refl
task-IsLater (stops_process r) s h = same_reason s.guarded s.guarded h refl refl
task-IsLater (wakes r p) s h = same_reason s.guarded s.guarded h refl refl

Move-IsLater : {s s' : Session} → Move s s' → IsReasoned s.guarded → IsLater s.guarded s'.guarded
Move-IsLater (aborts s reason) h = abort-IsLater reason s.guarded h
Move-IsLater (connects s sock) h = same_reason s.guarded s.guarded h refl refl
Move-IsLater (launches s process) h = same_reason s.guarded s.guarded h refl refl
Move-IsLater (exits s process) h = same_reason s.guarded s.guarded h refl refl
Move-IsLater (goes_on s before after task e) h =
    let later = task-IsLater task s h in record { reasoned = later.reasoned; stays = later.stays }

pub Reaches-IsReasoned : {s : Session} → Reaches new_session s → IsReasoned s.guarded
Reaches-IsReasoned here = refl
Reaches-IsReasoned (next reached step) = (Move-IsLater step (Reaches-IsReasoned reached)).reasoned

reason_from : {s s' : Session} → IsReasoned s.guarded → Reaches s s' → IsLater s.guarded s'.guarded
reason_from {s} h here = same_reason s.guarded s.guarded h refl refl
reason_from {s} h (next reached step) =
    let before = reason_from h reached in
    let after = Move-IsLater step before.reasoned in
    record {
      reasoned = after.reasoned;
      stays = λ reason e. after.stays reason (before.stays reason e);
    }

-- A session is cancelled exactly when it has an abort reason, and the first reason it is given stays,
-- whatever the threads do later.
first_reason_stays :
    {s s' : Session} (reason : AbortReason)
    → Reaches new_session s
    → Reaches s s'
    → s.guarded.abort_reason ≡ some reason
    → (s'.guarded.abort_reason ≡ some reason) × (s'.guarded.cancelled ≡ true)
first_reason_stays reason reached later e =
    let after = reason_from (Reaches-IsReasoned reached) later in
    (after.stays reason e, after.reasoned ∙ ap is_some (after.stays reason e))
