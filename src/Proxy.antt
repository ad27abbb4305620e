-- ===== src/Proxy.antt =====
-- ezviz_stream_bridge/proxy.py: `ProxyServer`, `watch_peer` and `do_GET`. A time is a number of
-- milliseconds. What the clock, the consumer and the session do is an argument.
pub mod Waiting
pub mod Handlers
use ezviz_stream_bridge.Prelude.{
  ℕ, zero, suc, ◌+◌, ◌-◌, min, Bool, true, false, not, Option, none, some, List, [], ◌∷◌, leb, ◌==◌,
  if◌then◌else◌,
}

abbrev pub peer_poll_interval : ℕ
peer_poll_interval = 500

-- `TIMEOUT_COOLDOWN`, of which a server's own `timeout_cooldown` may differ.
abbrev pub default_cooldown : ℕ
default_cooldown = 30000

-- The state of `ProxyServer` that changes, and its cooldown. `active` never goes below 0: `closed`
-- is called once for each call of `opened`.
pub record ProxyServer : Type 0 where
  pub timeout_cooldown : ℕ
  pub cooldown_until : ℕ
  pub last_id : ℕ
  pub active : ℕ

abbrev pub new_server : ℕ → ProxyServer
new_server timeout_cooldown = record {
  timeout_cooldown = timeout_cooldown;
  cooldown_until = 0;
  last_id = 0;
  active = 0;
}

-- `next_id`, which counts from 1
abbrev pub next_id : ProxyServer → ProxyServer × ℕ
next_id s = (record s { last_id = s.last_id + 1 }, s.last_id + 1)

-- `opened`
abbrev pub opened : ProxyServer → ProxyServer × ℕ
opened s = (record s { active = s.active + 1 }, s.active + 1)

-- `closed`
abbrev pub closed : ProxyServer → ProxyServer × ℕ
closed s = (record s { active = s.active - 1 }, s.active - 1)

-- `start_cooldown`
unfoldable pub start_cooldown : ℕ → ProxyServer → ProxyServer
start_cooldown now s =
    if s.timeout_cooldown == 0 then s else record s { cooldown_until = now + s.timeout_cooldown }

-- What one round of `wait_for_cooldown` reads: whether the session has an abort reason, the end of
-- the cooldown, which another handler may move, and the clock.
pub record Look : Type 0 where
  pub aborted : Bool
  pub until : ℕ
  pub now : ℕ

-- How a round ends: the function returns, for either reason, or sleeps that long.
pub data Cooldown : Type 0 where
  is_gone is_over : Cooldown
  sleeps : ℕ → Cooldown

unfoldable pub cooldown_round : Look → Cooldown
cooldown_round look =
    if look.aborted
    then is_gone
    else if leb look.until look.now
    then is_over
    else sleeps (min (look.until - look.now) peer_poll_interval)

-- How `wait_for_cooldown` ends on what it reads; `still_waits` is a call that has not returned.
pub data Waited : Type 0 where
  consumer_gone cooldown_over still_waits : Waited

-- `wait_for_cooldown`
unfoldable pub wait_for_cooldown : List Look → Waited
wait_for_cooldown [] = still_waits
wait_for_cooldown (look ∷ looks) =
    let rest = wait_for_cooldown looks in
    elim (cooldown_round look) [
      | is_gone ↦ consumer_gone
      | is_over ↦ cooldown_over
      | sleeps time ↦ rest
    ]

-- What a round of `watch_peer` finds: the stop event, an error of `select`, no data, the end of the
-- stream, data, nothing to read after all, or an error of `recv`.
pub data Poll : Type 0 where
  stopped select_fails no_data end_of_stream has_data would_block recv_fails : Poll

-- How `watch_peer` ends; `watches` is a call that has not returned.
pub data Watched : Type 0 where
  calls_on_gone returns_quietly watches : Watched

-- `watch_peer`
unfoldable pub watch_peer : List Poll → Watched
watch_peer [] = watches
watch_peer (stopped ∷ polls) = returns_quietly
watch_peer (select_fails ∷ polls) = calls_on_gone
watch_peer (no_data ∷ polls) = watch_peer polls
watch_peer (end_of_stream ∷ polls) = calls_on_gone
watch_peer (has_data ∷ polls) = watch_peer polls
watch_peer (would_block ∷ polls) = watch_peer polls
watch_peer (recv_fails ∷ polls) = calls_on_gone

-- The reasons that a session is aborted for.
pub data AbortReason : Type 0 where
  client_gone no_video finished : AbortReason

-- The reasons of the connection log.
pub data Reason : Type 0 where
  client_disconnected without_video stream_ended camera_timeout error : Reason

-- `_REASONS.get(session.abort_reason or "", reason)`
abbrev pub reason_of : Option AbortReason → Reason
reason_of none = stream_ended
reason_of (some client_gone) = client_disconnected
reason_of (some no_video) = without_video
reason_of (some finished) = stream_ended

-- The exceptions that the handler tells apart; a `DeviceException` is a `PyEzvizError` too.
pub data Raised : Type 0 where
  broken_pipe connection_reset device_exception ezviz_error other_error : Raised

-- What happens in the `try` block of `do_GET`: what sending the headers and running the session raise,
-- what the wait reads, whether the session has an abort reason after it, and the session's reason at
-- its end.
pub record Attempt : Type 0 where
  pub headers_raise : Option Raised
  pub looks : List Look
  pub aborted_after : Bool
  pub run_raises : Option Raised
  pub abort_reason : Option AbortReason

-- What the handler makes of it: the reason of the log, whether `session.run` was called, whether the
-- cooldown is started, and whether an exception leaves the handler.
pub record Handled : Type 0 where
  pub reason : Reason
  pub session_opened : Bool
  pub starts_cooldown : Bool
  pub propagates : Bool

-- The `except` clauses.
abbrev pub catch : Bool → Raised → Handled
catch opened_ raised =
    let handled : Reason → Bool → Bool → Handled = λ reason cooldown leaves. record {
      reason = reason;
      session_opened = opened_;
      starts_cooldown = cooldown;
      propagates = leaves;
    } in
    elim raised [
      | broken_pipe ↦ handled client_disconnected false false
      | connection_reset ↦ handled client_disconnected false false
      | device_exception ↦ handled camera_timeout true false
      | ezviz_error ↦ handled error false false
      | other_error ↦ handled stream_ended false true
    ]

abbrev pub quiet : Bool → Reason → Handled
quiet opened_ reason = record {
  reason = reason;
  session_opened = opened_;
  starts_cooldown = false;
  propagates = false;
}

-- `session.run` and what comes after it.
abbrev pub run_session : Option Raised → Option AbortReason → Handled
run_session none reason = quiet true (reason_of reason)
run_session (some raised) reason = catch true raised

-- From the end of the wait on; a consumer that is gone has left the session an abort reason.
abbrev pub after_wait : Attempt → Waited → Option Handled
after_wait attempt consumer_gone = some (quiet false client_disconnected)
after_wait attempt cooldown_over = some (
    if attempt.aborted_after
    then quiet false client_disconnected
    else run_session attempt.run_raises attempt.abort_reason)
after_wait attempt still_waits = none

-- The `try` statement of `do_GET` on the server's own path; `none` is a handler that still waits.
unfoldable pub try_get : Attempt → Option Handled
try_get attempt = elim attempt.headers_raise [
  | some raised ↦ some (catch false raised)
  | none ↦ after_wait attempt (wait_for_cooldown attempt.looks)
]

-- `do_GET`, up to the `try` statement: a connection is counted, and has its number.
abbrev pub begin_get : ProxyServer → ProxyServer
begin_get s = (opened (next_id s).0).0

-- The cooldown that `do_GET` starts on a `DeviceException`, and its `finally` block.
abbrev pub fail_get : ℕ → Handled → ProxyServer → ProxyServer
fail_get now handled s = if handled.starts_cooldown then start_cooldown now s else s

abbrev pub end_get : ProxyServer → ProxyServer
end_get s = (closed s).0
