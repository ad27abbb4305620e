-- ===== src/Config.antt =====
-- ezviz_stream_bridge/config.py: `CameraConfig`, `BridgeConfig` and `load_options`.
pub mod Document
pub mod Distinct
pub mod Valid
pub mod Uncaught
use ezviz_stream_bridge.Prelude.{
  ℕ, zero, suc, ◌+◌, Bool, true, false, not, ◌&&◌, ◌||◌, Option, none, some, List, [], ◌∷◌, length,
  map, leb, ltb, ◌==◌, if◌then◌else◌,
}
use ezviz_stream_bridge.Config.Document.{
  Text, same_text, some_text, Integer, Real, finite, infinite, nan, Json, null, text, array, object,
  Values, no_values, value, Members, get, get_default, or_text, truthy, is_zero, Converted,
  converts, not_a_number, overflows, integer, Python, str, strip, isalnum, int, float,
}

abbrev pub first_port : ℕ
first_port = 8558

abbrev pub last_port : ℕ
last_port = 8562

-- The problems that a `ConfigError` reports.
pub data ConfigError : Type 0 where
  no_credentials no_cameras serial_twice port_twice : ConfigError
  not_a_mapping no_serial : ℕ → ConfigError
  not_alnum port_not_number port_outside : Text → ConfigError
  not_seconds not_finite no_file cannot_read bad_json no_object : ConfigError

-- How reading options ends: with a value, with a `ConfigError`, or with an exception that nothing
-- catches: an `OverflowError` of a conversion, or one of `read_text` or `json.loads`.
pub data Read (A : Type 0) : Type 0 where
  reads : A → Read A
  config_error : ConfigError → Read A
  overflow_error load_error : Read A

infixl 1 ◌>>=◌
abbrev pub ◌>>=◌ : {A B : Type 0} → Read A → (A → Read B) → Read B
reads a >>= f = f a
config_error e >>= f = config_error e
overflow_error >>= f = overflow_error
load_error >>= f = load_error

-- `if test: raise ConfigError`
abbrev pub refuse : {A : Type 0} → Bool → ConfigError → Read A → Read A
refuse test e rest = if test then config_error e else rest

-- `CameraConfig`
pub record CameraConfig : Type 0 where
  pub serial : Text
  pub port : ℕ

-- `BridgeConfig`
pub record BridgeConfig : Type 0 where
  pub username : Text
  pub password : Text
  pub region : Text
  pub cameras : List CameraConfig
  pub log_level : Text
  pub log_ffmpeg_stderr : Bool
  pub audio_window : Option Real

-- `set(values)`, by the test of equality.
unfoldable pub holds : {A : Type 0} → (A → A → Bool) → A → List A → Bool
holds same a [] = false
holds same a (b ∷ rest) = same a b || holds same a rest

unfoldable pub set_of : {A : Type 0} → (A → A → Bool) → List A → List A
set_of same [] = []
set_of same (a ∷ rest) =
    let others = set_of same rest in if holds same a rest then others else a ∷ others

-- `len(set(values)) != len(values)`
abbrev pub has_twice : {A : Type 0} → (A → A → Bool) → List A → Bool
has_twice same values = not (length (set_of same values) == length values)

-- `FIRST_PORT <= port <= LAST_PORT`
abbrev pub is_declared : Integer → Bool
is_declared n = not n.is_negative && leb first_port n.size && leb n.size last_port

-- The keys of the options, and the texts that the code names.
abbrev pub key_username : Text
key_username = b'u' ∷ b's' ∷ b'e' ∷ b'r' ∷ b'n' ∷ b'a' ∷ b'm' ∷ b'e' ∷ []

abbrev pub key_password : Text
key_password = b'p' ∷ b'a' ∷ b's' ∷ b's' ∷ b'w' ∷ b'o' ∷ b'r' ∷ b'd' ∷ []

abbrev pub key_region : Text
key_region = b'r' ∷ b'e' ∷ b'g' ∷ b'i' ∷ b'o' ∷ b'n' ∷ []

abbrev pub key_cameras : Text
key_cameras = b'c' ∷ b'a' ∷ b'm' ∷ b'e' ∷ b'r' ∷ b'a' ∷ b's' ∷ []

abbrev pub key_serial : Text
key_serial = b's' ∷ b'e' ∷ b'r' ∷ b'i' ∷ b'a' ∷ b'l' ∷ []

abbrev pub key_port : Text
key_port = b'p' ∷ b'o' ∷ b'r' ∷ b't' ∷ []

abbrev pub key_log_level : Text
key_log_level = b'l' ∷ b'o' ∷ b'g' ∷ b'_' ∷ b'l' ∷ b'e' ∷ b'v' ∷ b'e' ∷ b'l' ∷ []

abbrev pub key_stderr : Text
key_stderr =
    b'l' ∷ b'o' ∷ b'g' ∷ b'_' ∷ b'f' ∷ b'f' ∷ b'm' ∷ b'p' ∷ b'e' ∷ b'g' ∷ b'_' ∷ b's' ∷ b't' ∷ b'd'
    ∷ b'e' ∷ b'r' ∷ b'r' ∷ []

abbrev pub key_audio_window : Text
key_audio_window =
    b'a' ∷ b'u' ∷ b'd' ∷ b'i' ∷ b'o' ∷ b'_' ∷ b'w' ∷ b'i' ∷ b'n' ∷ b'd' ∷ b'o' ∷ b'w' ∷ []

abbrev pub info : Text
info = b'i' ∷ b'n' ∷ b'f' ∷ b'o' ∷ []

-- "apiieu.ezvizlife.com"
abbrev pub default_region : Text
default_region =
    b'a' ∷ b'p' ∷ b'i' ∷ b'i' ∷ b'e' ∷ b'u' ∷ b'.' ∷ b'e' ∷ b'z' ∷ b'v' ∷ b'i' ∷ b'z' ∷ b'l' ∷ b'i'
    ∷ b'f' ∷ b'e' ∷ b'.' ∷ b'c' ∷ b'o' ∷ b'm' ∷ []

-- The texts that read as true.
abbrev pub true_texts : List Text
true_texts =
    (b'1' ∷ [])
    ∷ (b't' ∷ b'r' ∷ b'u' ∷ b'e' ∷ [])
    ∷ (b'y' ∷ b'e' ∷ b's' ∷ [])
    ∷ (b'o' ∷ b'n' ∷ [])
    ∷ []

-- `not math.isfinite(seconds) or seconds < 0`
abbrev pub is_refused : Real → Bool
is_refused (finite negative whole fraction) =
    negative && not (is_zero (finite negative whole fraction))
is_refused (infinite negative) = true
is_refused nan = true

module _ (py : Python) where
  -- `str(value or "")`
  abbrev pub str_or_empty : Json → Text
  str_or_empty json = str py (or_text json [])

  -- `_as_seconds`, from the conversion on.
  abbrev pub to_seconds : Converted Real → Read (Option Real)
  to_seconds (converts seconds) =
      if is_refused seconds then config_error not_finite else reads (some seconds)
  to_seconds not_a_number = config_error not_seconds
  to_seconds overflows = overflow_error

  -- `_as_seconds`
  unfoldable pub as_seconds : Json → Read (Option Real)
  as_seconds null = reads none
  as_seconds (text t) =
      if not (some_text (strip py t)) then reads none else to_seconds (float py (text t))
  as_seconds json = to_seconds (float py json)

  -- `_as_bool`
  unfoldable pub as_bool : Json → Bool
  as_bool (text t) = holds same_text (py.lower (strip py t)) true_texts
  as_bool json = truthy json

  -- The end of `_camera`, on the port.
  abbrev pub to_camera : Text → Converted Integer → Read CameraConfig
  to_camera serial (converts port) =
      if not (is_declared port)
      then config_error (port_outside serial)
      else reads (record { serial = serial; port = port.size })
  to_camera serial not_a_number = config_error (port_not_number serial)
  to_camera serial overflows = overflow_error

  abbrev pub port_of : Members → ℕ → Json
  port_of entry index =
      get_default entry key_port
        (integer (record { is_negative = false; size = first_port + index }))

  -- `_camera` of a mapping.
  unfoldable pub camera_of : Members → ℕ → Read CameraConfig
  camera_of entry index =
      let serial = py.upper (strip py (str_or_empty (get entry key_serial))) in
      refuse (not (some_text serial)) (no_serial index) (
        refuse (not (isalnum py serial)) (not_alnum serial)
          (to_camera serial (int py (port_of entry index))))

  -- `_camera`
  abbrev pub camera : Json → ℕ → Read CameraConfig
  camera (object entry) index = camera_of entry index
  camera json index = config_error (not_a_mapping index)

  -- The generator over the entries.
  unfoldable pub cameras_from : Values → ℕ → Read (List CameraConfig)
  cameras_from no_values index = reads []
  cameras_from (value entry entries) index = camera entry index >>= λ first.
      cameras_from entries (index + 1) >>= λ rest. reads (first ∷ rest)

  -- `options.get("cameras")`, which is to be a list with an entry.
  abbrev pub raw_cameras : Json → Read Values
  raw_cameras (array (value entry entries)) = reads (value entry entries)
  raw_cameras json = config_error no_cameras

  -- The region, or the default one.
  abbrev pub or_default : Text → Text
  or_default [] = default_region
  or_default (c ∷ t) = c ∷ t

  -- The end of `from_options`.
  abbrev pub configure : Members → Text → Text → List CameraConfig → Option Real → Read BridgeConfig
  configure options username password cameras window = reads (record {
    username = username;
    password = password;
    region = or_default (strip py (str_or_empty (get options key_region)));
    cameras = cameras;
    log_level = py.lower (str py (or_text (get options key_log_level) info));
    log_ffmpeg_stderr = as_bool (get options key_stderr);
    audio_window = window;
  })

  -- `from_options`, from the checks of the cameras on.
  abbrev pub check_cameras : Members → Text → Text → List CameraConfig → Read BridgeConfig
  check_cameras options username password cameras =
      refuse (has_twice same_text (map (λ c. c.serial) cameras)) serial_twice (
        refuse (has_twice (λ a b. a == b) (map (λ c. c.port) cameras)) port_twice (
          as_seconds (get options key_audio_window)
          >>= configure options username password cameras))

  -- `from_options`, from the generator on.
  abbrev pub read_cameras : Members → Text → Text → Values → Read BridgeConfig
  read_cameras options username password raw =
      cameras_from raw 0 >>= check_cameras options username password

  -- `from_options`, once there are credentials.
  abbrev pub with_credentials : Members → Text → Text → Read BridgeConfig
  with_credentials options username password =
      raw_cameras (get options key_cameras) >>= read_cameras options username password

  -- `from_options`
  unfoldable pub from_options : Members → Read BridgeConfig
  from_options options =
      let username = strip py (str_or_empty (get options key_username)) in
      let password = str_or_empty (get options key_password) in
      refuse (not (some_text username) || not (some_text password)) no_credentials
        (with_credentials options username password)

-- What there is at the path of the options: no file, one that cannot be read, bytes that are no
-- UTF-8, a text that is no JSON, one for which `json.loads` raises something else, as it does for a
-- number of too many digits and for values that are nested too deeply, or a document.
pub data OptionsFile : Type 0 where
  missing unreadable not_text not_json out_of_limits : OptionsFile
  document : Json → OptionsFile

-- `load_options`, of a document
abbrev pub as_object : Json → Read Members
as_object (object options) = reads options
as_object json = config_error no_object

-- `load_options`
abbrev pub load_options : OptionsFile → Read Members
load_options missing = config_error no_file
load_options unreadable = config_error cannot_read
load_options not_text = load_error
load_options not_json = config_error bad_json
load_options out_of_limits = load_error
load_options (document json) = as_object json
