-- ===== src/Entry/Crashes.antt =====
-- About the exceptions that leave `main`: which options make them.
use ezviz_stream_bridge.Prelude.{◌≡◌, inl, inr, refl, true}
use ezviz_stream_bridge.Config.Document.{
  null, boolean, integer, real, text, array, object, Members, Python,
}
use ezviz_stream_bridge.Config.{
  Read, reads, config_error, overflow_error, load_error, BridgeConfig, OptionsFile, missing,
  unreadable, not_text, not_json, out_of_limits, document, from_options,
}
use ezviz_stream_bridge.Config.Uncaught.{
  is_uncaught, HasInfinitePort, HasHugeWindow, options-uncaught,
}
use ezviz_stream_bridge.Entry.{Account, crashes, start_with, main}

module _ (py : Python) where
  -- The files that make `main` raise.
  pub data Crashing : OptionsFile → Type 0 where
    no_text : Crashing not_text
    beyond_limits : Crashing out_of_limits
    infinite_port :
        {options : Members} → HasInfinitePort py options → Crashing (document (object options))
    huge_window :
        {options : Members} → HasHugeWindow py options → Crashing (document (object options))

  started :
      (options : Members) (account : Account) (read : Read BridgeConfig)
      → (start_with py options account read).0 ≡ crashes
      → is_uncaught read ≡ true
  started options account (reads config) e = cc
  started options account (config_error problem) e = cc
  started options account overflow_error e = refl
  started options account load_error e = refl

  -- `main` raises before it runs the supervisor only where the options file is no UTF-8 text or is
  -- beyond the limits of `json.loads`, where a camera's port is an infinite number, or where the audio
  -- window is a whole number too large for a floating-point number.
  pub main_crashes :
      (file : OptionsFile) (account : Account) → (main py file account).0 ≡ crashes → Crashing file
  unfolding main
  main_crashes missing account e = cc
  main_crashes unreadable account e = cc
  main_crashes not_text account e = no_text
  main_crashes not_json account e = cc
  main_crashes out_of_limits account e = beyond_limits
  main_crashes (document null) account e = cc
  main_crashes (document (boolean b)) account e = cc
  main_crashes (document (integer n)) account e = cc
  main_crashes (document (real r)) account e = cc
  main_crashes (document (text t)) account e = cc
  main_crashes (document (array entries)) account e = cc
  main_crashes (document (object options)) account e =
      elim (options-uncaught py options (started options account (from_options py options) e)) [
        | inl port ↦ infinite_port port
        | inr window ↦ huge_window window
      ]
