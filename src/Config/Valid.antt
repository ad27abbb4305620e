-- ===== src/Config/Valid.antt =====
-- About `from_options`: what a configuration that it returns is good for.
use ezviz_stream_bridge.Prelude.{
  ℕ, suc, ◌+◌, ◌≤◌, ◌≡◌, refl, ap, ◌∙◌, Bool, true, false, not, ◌&&◌, Option, none, some, List, [],
  ◌∷◌, map, All, arith, length, ◌==◌, or_false, not-false, if◌then◌else◌,
}
use mathlib.Core.Path.{subst}
use ezviz_stream_bridge.Config.Document.{
  Text, same_text, some_text, Integer, Real, finite, infinite, nan, Json, null, boolean, integer,
  real, text, array, object, Values, no_values, value, Members, get, is_zero, Converted, converts,
  not_a_number, overflows, Python, strip, isalnum, int, float,
}
use ezviz_stream_bridge.Config.{
  not_finite, port_outside, no_serial, not_alnum, no_credentials, serial_twice, port_twice, Read,
  reads, config_error, overflow_error, load_error, ◌>>=◌, refuse, ConfigError, CameraConfig,
  BridgeConfig, has_twice, is_declared, is_refused, key_username, key_password, key_region,
  key_cameras, key_serial, key_audio_window, str_or_empty, to_seconds, as_seconds, to_camera,
  port_of, camera_of, camera, cameras_from, raw_cameras, or_default, from_options,
}
use ezviz_stream_bridge.Config.Distinct.{IsDistinct, has_twice-IsDistinct, IsBetween, few_of_range}

bind-reads :
    {A B : Type 0} (m : Read A) (f : A → Read B) (b : B)
    → (m >>= f) ≡ reads b
    → (a : A) × (m ≡ reads a) × (f a ≡ reads b)
bind-reads (reads a) f b e = (a, refl, e)
bind-reads (config_error problem) f b e = cc
bind-reads overflow_error f b e = cc
bind-reads load_error f b e = cc

refuse-reads :
    {A : Type 0} (test : Bool) (problem : ConfigError) (rest : Read A) (a : A)
    → refuse test problem rest ≡ reads a
    → (test ≡ false) × (rest ≡ reads a)
refuse-reads true problem rest a e = cc
refuse-reads false problem rest a e = (refl, e)

reads-injective : {A : Type 0} (a b : A) → reads a ≡ reads b → a ≡ b
reads-injective a b e = cc

-- A camera whose serial is letters and digits and whose port is one that the add-on declares.
pub record IsCamera (py : Python) (c : CameraConfig) : Type 0 where
  pub alnum : isalnum py c.serial ≡ true
  pub declared : (8558 ≤ c.port) × (c.port ≤ 8562)

-- A window that is not set, or a finite number that is not negative.
pub data IsWindow : Option Real → Type 0 where
  not_set : IsWindow none
  seconds :
      (negative : Bool) (whole fraction : ℕ)
      → (negative && not (is_zero (finite negative whole fraction))) ≡ false
      → IsWindow (some (finite negative whole fraction))

pub record IsValid (py : Python) (c : BridgeConfig) : Type 0 where
  pub has_username : some_text c.username ≡ true
  pub has_password : some_text c.password ≡ true
  pub has_region : some_text c.region ≡ true
  pub has_camera : 1 ≤ length c.cameras
  pub few_cameras : length c.cameras ≤ 5
  pub all_cameras : All (IsCamera py) c.cameras
  pub serials_distinct : IsDistinct same_text (map (λ camera. camera.serial) c.cameras)
  pub ports_distinct : IsDistinct (λ a b. a == b) (map (λ camera. camera.port) c.cameras)
  pub window : IsWindow c.audio_window

ports : (n : Integer) → is_declared n ≡ true → (8558 ≤ n.size) × (n.size ≤ 8562)
ports n e = ground arith

module _ (py : Python) where
  to_seconds-IsWindow :
      (converted : Converted Real) (window : Option Real)
      → to_seconds py converted ≡ reads window
      → IsWindow window
  to_seconds-IsWindow (converts (finite negative whole fraction)) window e =
      let seconds_ : Real = finite negative whole fraction in
      let (good, same) =
        refuse-reads (is_refused seconds_) not_finite (reads (some seconds_)) window e in
      subst IsWindow (reads-injective (some seconds_) window same)
        (seconds negative whole fraction good)
  to_seconds-IsWindow (converts (infinite negative)) window e = cc
  to_seconds-IsWindow (converts nan) window e = cc
  to_seconds-IsWindow not_a_number window e = cc
  to_seconds-IsWindow overflows window e = cc

  to_camera-IsCamera :
      (serial : Text) (port : Converted Integer) (c : CameraConfig)
      → isalnum py serial ≡ true
      → to_camera py serial port ≡ reads c
      → IsCamera py c
  to_camera-IsCamera serial not_a_number c alnum e = cc
  to_camera-IsCamera serial overflows c alnum e = cc
  to_camera-IsCamera serial (converts n) c alnum e =
      let read : CameraConfig = record { serial = serial; port = n.size } in
      let (declared, same) =
        refuse-reads (not (is_declared n)) (port_outside serial) (reads read) c e in
      subst (IsCamera py) (reads-injective read c same)
        (record { alnum = alnum; declared = ports n (not-false (is_declared n) declared) })

  camera-IsCamera :
      (json : Json) (index : ℕ) (c : CameraConfig) → camera py json index ≡ reads c → IsCamera py c
  unfolding camera_of
  camera-IsCamera null index c e = cc
  camera-IsCamera (boolean b) index c e = cc
  camera-IsCamera (integer n) index c e = cc
  camera-IsCamera (real r) index c e = cc
  camera-IsCamera (text t) index c e = cc
  camera-IsCamera (array entries) index c e = cc
  camera-IsCamera (object entry) index c e =
      let serial = py.upper (strip py (str_or_empty py (get entry key_serial))) in
      let port = int py (port_of py entry index) in
      let checked =
        refuse (not (isalnum py serial)) (not_alnum serial) (to_camera py serial port) in
      let (some_serial, e') = refuse-reads (not (some_text serial)) (no_serial index) checked c e in
      let (alnum, e'') =
        refuse-reads (not (isalnum py serial)) (not_alnum serial) (to_camera py serial port) c e' in
      to_camera-IsCamera serial port c (not-false (isalnum py serial) alnum) e''

  cameras-IsCamera :
      (entries : Values) (index : ℕ) (cs : List CameraConfig)
      → cameras_from py entries index ≡ reads cs
      → All (IsCamera py) cs
  unfolding cameras_from
  cameras-IsCamera no_values index cs e = subst (All (IsCamera py)) (reads-injective [] cs e) tt
  cameras-IsCamera (value entry entries) index cs e =
      let (c, first, e') = bind-reads (camera py entry index) _ cs e in
      let (rest, read, e'') = bind-reads (cameras_from py entries (index + 1)) _ cs e' in
      subst (All (IsCamera py)) (reads-injective (c ∷ rest) cs e'')
        (camera-IsCamera entry index c first, cameras-IsCamera entries (index + 1) rest read)

  some_cameras :
      (json : Json) (raw : Values) (cs : List CameraConfig)
      → raw_cameras py json ≡ reads raw
      → cameras_from py raw 0 ≡ reads cs
      → 1 ≤ length cs
  unfolding cameras_from
  some_cameras null raw cs e f = cc
  some_cameras (boolean b) raw cs e f = cc
  some_cameras (integer n) raw cs e f = cc
  some_cameras (real r) raw cs e f = cc
  some_cameras (text t) raw cs e f = cc
  some_cameras (object entry) raw cs e f = cc
  some_cameras (array no_values) raw cs e f = cc
  some_cameras (array (value entry entries)) raw cs e f =
      let f' = ap (λ v. cameras_from py v 0) (reads-injective (value entry entries) raw e) ∙ f in
      let (c, first, g) = bind-reads (camera py entry 0) _ cs f' in
      let (rest, read, g') = bind-reads (cameras_from py entries (0 + 1)) _ cs g in
      subst (λ t. 1 ≤ length t) (reads-injective (c ∷ rest) cs g') (omega arith)

  as_seconds-IsWindow :
      (json : Json) (window : Option Real) → as_seconds py json ≡ reads window → IsWindow window
  unfolding as_seconds
  as_seconds-IsWindow null window e = subst IsWindow (reads-injective none window e) not_set
  as_seconds-IsWindow (text t) window e = go (not (some_text (strip py t))) e
    where
      go :
          (b : Bool)
          → (if b then reads none else to_seconds py (float py (text t))) ≡ reads window
          → IsWindow window
      go true e = subst IsWindow (reads-injective none window e) not_set
      go false e = to_seconds-IsWindow (float py (text t)) window e
  as_seconds-IsWindow (boolean b) window e = to_seconds-IsWindow (float py (boolean b)) window e
  as_seconds-IsWindow (integer n) window e = to_seconds-IsWindow (float py (integer n)) window e
  as_seconds-IsWindow (real r) window e = to_seconds-IsWindow (float py (real r)) window e
  as_seconds-IsWindow (array entries) window e =
      to_seconds-IsWindow (float py (array entries)) window e
  as_seconds-IsWindow (object entry) window e =
      to_seconds-IsWindow (float py (object entry)) window e

  region_given : (t : Text) → some_text (or_default py t) ≡ true
  region_given [] = refl
  region_given (c ∷ t) = refl

  ports-IsBetween :
      (cs : List CameraConfig)
      → All (IsCamera py) cs
      → All (IsBetween 8558 5) (map (λ c. c.port) cs)
  ports-IsBetween [] h = tt
  ports-IsBetween (c ∷ cs) (h, hs) =
      ((h.declared.0, omega (arith, h.declared.1)), ports-IsBetween cs hs)

  length-ports : (cs : List CameraConfig) → length (map (λ c. c.port) cs) ≡ length cs
  length-ports [] = refl
  length-ports (c ∷ cs) = ap suc (length-ports cs)

  -- A configuration that `from_options` returns has credentials, a region and a camera, at most five
  -- of them, no two with the same serial or port, each with a serial of letters and digits and a port
  -- that the add-on declares, and an audio window that is not set or finite and not negative.
  pub from_options-IsValid :
      (options : Members) (config : BridgeConfig)
      → from_options py options ≡ reads config
      → IsValid py config
  unfolding from_options
  from_options-IsValid options config e =
      let username = strip py (str_or_empty py (get options key_username)) in
      let password = str_or_empty py (get options key_password) in
      let (credentials, e1) = refuse-reads _ no_credentials _ config e in
      let (named, worded) =
        or_false (not (some_text username)) (not (some_text password)) credentials in
      let (raw, listed, e2) = bind-reads (raw_cameras py (get options key_cameras)) _ config e1 in
      let (cs, read, e3) = bind-reads (cameras_from py raw 0) _ config e2 in
      let (serials, e4) =
        refuse-reads (has_twice same_text (map (λ c. c.serial) cs)) serial_twice _ config e3 in
      let (ports_, e5) =
        refuse-reads (has_twice (λ a b. a == b) (map (λ c. c.port) cs)) port_twice _ config e4 in
      let (window, timed, e6) =
        bind-reads (as_seconds py (get options key_audio_window)) _ config e5 in
      let cameras_ = cameras-IsCamera raw 0 cs read in
      let distinct = has_twice-IsDistinct (λ a b. a == b) (map (λ c. c.port) cs) ports_ in
      let few = few_of_range 8558 5 (map (λ c. c.port) cs) (ports-IsBetween cs cameras_) distinct in
      subst (IsValid py) (reads-injective _ config e6) (record {
        has_username = not-false (some_text username) named;
        has_password = not-false (some_text password) worded;
        has_region = region_given (strip py (str_or_empty py (get options key_region)));
        has_camera = some_cameras (get options key_cameras) raw cs listed read;
        few_cameras = omega (arith, few, length-ports cs);
        all_cameras = cameras_;
        serials_distinct = has_twice-IsDistinct same_text (map (λ c. c.serial) cs) serials;
        ports_distinct = distinct;
        window = as_seconds-IsWindow (get options key_audio_window) window timed;
      })
