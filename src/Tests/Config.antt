-- ===== src/Tests/Config.antt =====
-- ezviz_stream_bridge/config.py and ezviz_stream_bridge/__main__.py: an options file with one camera,
-- and files that are no options.
use ezviz_stream_bridge.Prelude.{
  ℕ, ◌+◌, ◌-◌, ◌≡◌, refl, Bool, false, ◌&&◌, ◌||◌, none, [], ◌∷◌, leb, ◌==◌, map, if◌then◌else◌,
}
use ezviz_stream_bridge.Token.{nothing}
use ezviz_stream_bridge.Config.Document.{
  Text, Json, text, real, infinite, array, object, value, no_values, member, no_members, Members,
  Python, lstrip, rstrip, all_alnum, get_default,
}
use ezviz_stream_bridge.Config.{
  reads, BridgeConfig, OptionsFile, document, key_username, key_password, key_cameras, key_serial,
  key_port, default_region, info, holds, set_of, as_seconds, as_bool, camera_of, cameras_from,
  from_options,
}
use ezviz_stream_bridge.Config.Valid.{IsValid, from_options-IsValid}
use ezviz_stream_bridge.Entry.{Account, crashes, main}
use ezviz_stream_bridge.Entry.Crashes.{Crashing, main_crashes}

-- The letters, digits and spaces of ASCII; numbers are not read.
abbrev is_lower : ℕ → Bool
is_lower c = leb 97 c && leb c 122

abbrev is_upper : ℕ → Bool
is_upper c = leb 65 c && leb c 90

abbrev python : Python
python = record {
  is_space = λ c. c == 32;
  is_alnum = λ c. is_lower c || is_upper c || (leb 48 c && leb c 57);
  upper = map (λ c. if is_lower c then c - 32 else c);
  lower = map (λ c. if is_upper c then c + 32 else c);
  str_other = λ json. [];
  int_text = λ t. none;
  float_text = λ t. none;
  float_integer = λ n. none;
}

-- " c1 ", a serial
abbrev serial : Text
serial = b' ' ∷ b'c' ∷ b'1' ∷ b' ' ∷ []

abbrev one_camera : Json
one_camera = object (member key_serial (text serial) no_members)

abbrev options_of : Json → Members
options_of cameras =
    member key_username (text (b'u' ∷ []))
      (member key_password (text (b'p' ∷ [])) (member key_cameras cameras no_members))

abbrev options : Members
options = options_of (array (value one_camera no_values))

abbrev config : BridgeConfig
config = record {
  username = b'u' ∷ [];
  password = b'p' ∷ [];
  region = default_region;
  cameras = record { serial = b'C' ∷ b'1' ∷ []; port = 8558 } ∷ [];
  log_level = info;
  log_ffmpeg_stderr = false;
  audio_window = none;
}

-- A camera without a port gets the first one, and its serial is stripped and in capitals.
from_options_one : from_options python options ≡ reads config
unfolding from_options get_default holds set_of as_seconds as_bool camera_of cameras_from lstrip
    rstrip all_alnum
from_options_one = refl

from_options-IsValid_example : IsValid python config
from_options-IsValid_example = from_options-IsValid python options config from_options_one

abbrev an_account : Account
an_account = record { stored = nothing; login_works = false; device_infos = none }

-- "port": Infinity
abbrev unbounded : Json
unbounded =
    object (member key_serial (text serial) (member key_port (real (infinite false)) no_members))

abbrev unbounded_file : OptionsFile
unbounded_file = document (object (options_of (array (value unbounded no_values))))

unbounded_crashes : (main python unbounded_file an_account).0 ≡ crashes
unfolding main from_options get_default camera_of cameras_from lstrip rstrip all_alnum
unbounded_crashes = refl

main_crashes_example : Crashing python unbounded_file
main_crashes_example = main_crashes python unbounded_file an_account unbounded_crashes
