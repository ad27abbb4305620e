-- ===== src/Tests/Lifecycle.antt =====
-- ezviz_stream_bridge/session.py: an abort between the connecting of the socket and the start of
-- FFmpeg.
use ezviz_stream_bridge.Prelude.{refl, true, false, none, some, [], ◌∷◌}
use ezviz_stream_bridge.Proxy.{client_gone}
use ezviz_stream_bridge.Session.Lifecycle.{
  Session, Reaches, here, next, new_session, aborts, connects, launches, goes_on, registers_socket,
  registers_process, stops_process, wakes, abort, register_socket, register_process,
}
use ezviz_stream_bridge.Session.Lifecycle.Woken.{IsShut, IsEnded, aborted_is_woken}

abbrev pub connected : Session
connected = record {
  guarded = record { cancelled = false; abort_reason = none; socket = some 5; ffmpeg = none };
  shut = [];
  told = [];
  exited = [];
  tasks = [];
}

abbrev aborted : Session
aborted = record {
  guarded = record {
    cancelled = true;
    abort_reason = some client_gone;
    socket = some 5;
    ffmpeg = none;
  };
  shut = [];
  told = [];
  exited = [];
  tasks = wakes (some 5) none ∷ [];
}

abbrev launched : Session
launched = record {
  guarded = record {
    cancelled = true;
    abort_reason = some client_gone;
    socket = some 5;
    ffmpeg = some 7;
  };
  shut = [];
  told = [];
  exited = [];
  tasks = stops_process 7 ∷ wakes (some 5) none ∷ [];
}

abbrev idle : Session
idle = record {
  guarded = record {
    cancelled = true;
    abort_reason = some client_gone;
    socket = some 5;
    ffmpeg = some 7;
  };
  shut = 5 ∷ [];
  told = 7 ∷ [];
  exited = [];
  tasks = [];
}

pub to_connected : Reaches new_session connected
unfolding register_socket
to_connected = next (next here (connects new_session 5)) (goes_on _ [] [] (registers_socket 5) refl)

to_aborted : Reaches new_session aborted
unfolding abort
to_aborted = next to_connected (aborts connected client_gone)

aborted_to_idle : Reaches aborted idle
unfolding register_process
aborted_to_idle =
    next
      (next
        (next (next here (launches aborted 7))
          (goes_on _ [] (wakes (some 5) none ∷ []) (registers_process 7) refl))
        (goes_on launched [] (wakes (some 5) none ∷ []) (stops_process 7) refl))
      (goes_on _ [] [] (wakes (some 5) none) refl)

through : {a b c : Session} → Reaches a b → Reaches b c → Reaches a c
through first here = first
through first (next second step) = next (through first second) step

aborted_is_woken_example : IsShut idle.guarded.socket idle × IsEnded idle.guarded.ffmpeg idle
aborted_is_woken_example =
    aborted_is_woken {s = idle} (through to_aborted aborted_to_idle) refl refl
