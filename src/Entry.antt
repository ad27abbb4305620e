-- ===== src/Entry.antt =====
-- ezviz_stream_bridge/__main__.py: `main` and the hint that it logs.
pub mod Crashes
use ezviz_stream_bridge.Prelude.{
  ℕ, Bool, true, false, not, ◌||◌, Option, none, some, List, [], ◌∷◌, if◌then◌else◌,
}
use ezviz_stream_bridge.Token.{Loaded, found, nothing, load_raises}
use ezviz_stream_bridge.Config.Document.{Json, Members, get, Python, strip, some_text}
use ezviz_stream_bridge.Config.{
  Read, reads, config_error, overflow_error, load_error, BridgeConfig, OptionsFile, load_options,
  from_options, str_or_empty, key_username, key_password,
}
use ezviz_stream_bridge.Devices.{CameraListing, parse_camera_listings}

-- What the hint meets: how reading the stored token ends, whether a login works, and the answer of the
-- cloud, `none` where it raises.
pub record Account : Type 0 where
  pub stored : Loaded
  pub login_works : Bool
  pub device_infos : Option Json

-- How `main` ends: with an exit code, with a run of the supervisor, or with an exception.
pub data Exit : Type 0 where
  exits : ℕ → Exit
  supervises : BridgeConfig → Exit
  crashes : Exit

module _ (py : Python) where
  -- Whether `_client_for_listing` has a client; an exception is caught by its caller.
  unfoldable pub client_for_listing : Members → Account → Bool
  client_for_listing options account = elim account.stored [
    | found token ↦ true
    | nothing ↦
        if not (some_text (strip py (str_or_empty py (get options key_username))))
          || not (some_text (str_or_empty py (get options key_password)))
        then false
        else account.login_works
    | load_raises ↦ false
  ]

  abbrev pub listed : Option Json → List CameraListing
  listed none = []
  listed (some infos) = parse_camera_listings py infos

  -- `_log_available_cameras`, by the cameras that it logs.
  unfoldable pub log_available_cameras : Members → Account → List CameraListing
  log_available_cameras options account =
      if client_for_listing options account then listed account.device_infos else []

  -- `main`, from `from_options` on.
  abbrev pub start_with : Members → Account → Read BridgeConfig → Exit × List CameraListing
  start_with options account (reads config) = (supervises config, [])
  start_with options account (config_error problem) =
      (exits 1, log_available_cameras options account)
  start_with options account overflow_error = (crashes, [])
  start_with options account load_error = (crashes, [])

  -- `main`, from `load_options` on.
  abbrev pub main_options : Account → Read Members → Exit × List CameraListing
  main_options account (reads options) = start_with options account (from_options py options)
  main_options account (config_error problem) = (exits 1, [])
  main_options account overflow_error = (crashes, [])
  main_options account load_error = (crashes, [])

  -- `main`: how it ends, and the cameras that it logs.
  unfoldable pub main : OptionsFile → Account → Exit × List CameraListing
  main file account = main_options account (load_options file)
