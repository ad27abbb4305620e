-- ===== src/Config/Uncaught.antt =====
-- About the exceptions that leave `from_options` and are no `ConfigError`: which options make them.
use ezviz_stream_bridge.Prelude.{
  ℕ, ◌+◌, ◌≡◌, ◌⊎◌, inl, inr, refl, Bool, true, false, not, ◌||◌, Option, none, some, map, ◌==◌,
  if◌then◌else◌,
}
use ezviz_stream_bridge.Config.Document.{
  Text, same_text, some_text, Integer, Real, finite, infinite, nan, Json, null, boolean, integer,
  real, text, array, object, Values, no_values, value, Members, get, Converted, converts,
  not_a_number, overflows, Python, strip, isalnum, int, or_overflow, to_converted, bit_of,
}
use ezviz_stream_bridge.Config.{
  Read, reads, config_error, overflow_error, load_error, ◌>>=◌, refuse, ConfigError, port_outside,
  no_serial, not_alnum, no_credentials, serial_twice, port_twice, not_finite, has_twice,
  is_declared, is_refused, key_username, key_password, key_cameras, key_serial, key_audio_window,
  str_or_empty, to_seconds, as_seconds, to_camera, port_of, camera_of, camera, cameras_from,
  raw_cameras, configure, check_cameras, read_cameras, with_credentials, from_options,
}

-- An uncaught exception.
abbrev pub is_uncaught : {A : Type 0} → Read A → Bool
is_uncaught (reads a) = false
is_uncaught (config_error e) = false
is_uncaught overflow_error = true
is_uncaught load_error = true

bind-uncaught :
    {A B : Type 0} (m : Read A) (f : A → Read B)
    → is_uncaught (m >>= f) ≡ true
    → (is_uncaught m ≡ true) ⊎ ((a : A) × (m ≡ reads a) × (is_uncaught (f a) ≡ true))
bind-uncaught (reads a) f e = inr (a, refl, e)
bind-uncaught (config_error problem) f e = cc
bind-uncaught overflow_error f e = inl refl
bind-uncaught load_error f e = inl refl

refuse-uncaught :
    {A : Type 0} (test : Bool) (problem : ConfigError) (rest : Read A)
    → is_uncaught (refuse test problem rest) ≡ true
    → is_uncaught rest ≡ true
refuse-uncaught true problem rest e = cc
refuse-uncaught false problem rest e = e

-- An entry of the cameras, at its index.
pub data IsEntry : Json → ℕ → Values → ℕ → Type 0 where
  first :
      {json : Json} {index : ℕ} {entries : Values} → IsEntry json index (value json entries) index
  later :
      {json other : Json} {index from : ℕ} {entries : Values}
      → IsEntry json index entries (from + 1)
      → IsEntry json index (value other entries) from

module _ (py : Python) where
  -- A camera with an infinite number for its port.
  pub record HasInfinitePort (options : Members) : Type 0 where
    pub entries : Values
    pub entry : Members
    pub index : ℕ
    pub sign : Bool
    pub in_list : get options key_cameras ≡ array entries
    pub is_entry : IsEntry (object entry) index entries 0
    pub unbounded : port_of py entry index ≡ real (infinite sign)

  -- A window that is a whole number which no floating-point number holds.
  pub record HasHugeWindow (options : Members) : Type 0 where
    pub number : Integer
    pub huge : py.float_integer number ≡ none
    pub window : get options key_audio_window ≡ integer number

  int-overflows :
      (json : Json) → int py json ≡ overflows → (sign : Bool) × (json ≡ real (infinite sign))
  int-overflows null e = cc
  int-overflows (boolean b) e = cc
  int-overflows (integer n) e = cc
  int-overflows (real (finite negative whole fraction)) e = cc
  int-overflows (real (infinite negative)) e = (negative, refl)
  int-overflows (real nan) e = cc
  int-overflows (text t) e = go (py.int_text t) e
    where
      go :
          (o : Option Integer)
          → to_converted o ≡ overflows
          → (sign : Bool) × (text t ≡ real (infinite sign))
      go none e = cc
      go (some n) e = cc
  int-overflows (array entries) e = cc
  int-overflows (object fields) e = cc

  to_camera-uncaught :
      (serial : Text) (port : Converted Integer)
      → is_uncaught (to_camera py serial port) ≡ true
      → port ≡ overflows
  to_camera-uncaught serial (converts n) e =
      let never =
        refuse-uncaught (not (is_declared n)) (port_outside serial)
          (reads (record { serial = serial; port = n.size })) e in
      cc
  to_camera-uncaught serial not_a_number e = cc
  to_camera-uncaught serial overflows e = refl

  -- An entry whose port is infinite, among these.
  record FoundInfinite (entries : Values) (from : ℕ) : Type 0 where
    entry : Members
    index : ℕ
    sign : Bool
    is_entry : IsEntry (object entry) index entries from
    unbounded : port_of py entry index ≡ real (infinite sign)

  camera-uncaught :
      (json : Json) (index : ℕ) (entries : Values)
      → is_uncaught (camera py json index) ≡ true
      → FoundInfinite (value json entries) index
  unfolding camera_of
  camera-uncaught null index entries e = cc
  camera-uncaught (boolean b) index entries e = cc
  camera-uncaught (integer n) index entries e = cc
  camera-uncaught (real r) index entries e = cc
  camera-uncaught (text t) index entries e = cc
  camera-uncaught (array other) index entries e = cc
  camera-uncaught (object entry) index entries e =
      let serial = py.upper (strip py (str_or_empty py (get entry key_serial))) in
      let port = int py (port_of py entry index) in
      let checked =
        refuse (not (isalnum py serial)) (not_alnum serial) (to_camera py serial port) in
      let e' = refuse-uncaught (not (some_text serial)) (no_serial index) checked e in
      let e'' =
        refuse-uncaught (not (isalnum py serial)) (not_alnum serial) (to_camera py serial port)
          e' in
      let (sign, infinite_) =
        int-overflows (port_of py entry index) (to_camera-uncaught serial port e'') in
      record { entry = entry; index = index; sign = sign; is_entry = first; unbounded = infinite_ }

  cameras-uncaught :
      (entries : Values) (index : ℕ)
      → is_uncaught (cameras_from py entries index) ≡ true
      → FoundInfinite entries index
  unfolding cameras_from
  cameras-uncaught no_values index e = cc
  cameras-uncaught (value json entries) index e = elim (bind-uncaught (camera py json index) _ e) [
    | inl here ↦ camera-uncaught json index entries here
    | inr (c, read, e') ↦ elim (bind-uncaught (cameras_from py entries (index + 1)) _ e') [
      | inl there ↦
          let f = cameras-uncaught entries (index + 1) there in
          record {
            entry = f.entry;
            index = f.index;
            sign = f.sign;
            is_entry = later f.is_entry;
            unbounded = f.unbounded;
          }
      | inr (rest, read', e'') ↦ cc
    ]
  ]

  in_list-array : (json : Json) (raw : Values) → raw_cameras py json ≡ reads raw → json ≡ array raw
  in_list-array null raw e = cc
  in_list-array (boolean b) raw e = cc
  in_list-array (integer n) raw e = cc
  in_list-array (real r) raw e = cc
  in_list-array (text t) raw e = cc
  in_list-array (object entry) raw e = cc
  in_list-array (array no_values) raw e = cc
  in_list-array (array (value json entries)) raw e = cc

  raw_cameras-caught : (json : Json) → is_uncaught (raw_cameras py json) ≡ false
  raw_cameras-caught null = refl
  raw_cameras-caught (boolean b) = refl
  raw_cameras-caught (integer n) = refl
  raw_cameras-caught (real r) = refl
  raw_cameras-caught (text t) = refl
  raw_cameras-caught (object entry) = refl
  raw_cameras-caught (array no_values) = refl
  raw_cameras-caught (array (value json entries)) = refl

  seconds-caught : (seconds : Real) → is_uncaught (to_seconds py (converts seconds)) ≡ false
  seconds-caught seconds = go (is_refused seconds)
    where
      go :
          (b : Bool)
          → is_uncaught (if b then config_error not_finite else reads (some seconds)) ≡ false
      go true = refl
      go false = refl

  window-uncaught :
      (json : Json)
      → is_uncaught (as_seconds py json) ≡ true
      → (n : Integer) × (py.float_integer n ≡ none) × (json ≡ integer n)
  unfolding as_seconds
  window-uncaught null e = cc
  window-uncaught (boolean b) e = let caught = seconds-caught (finite false (bit_of b) 0) in cc
  window-uncaught (integer n) e = go (py.float_integer n) refl e
    where
      go :
          (o : Option Real)
          → py.float_integer n ≡ o
          → is_uncaught (to_seconds py (or_overflow o)) ≡ true
          → (m : Integer) × (py.float_integer m ≡ none) × (integer n ≡ integer m)
      go none f e = (n, f, refl)
      go (some seconds) f e = let caught = seconds-caught seconds in cc
  window-uncaught (real r) e = let caught = seconds-caught r in cc
  window-uncaught (array entries) e = cc
  window-uncaught (object fields) e = cc
  window-uncaught (text t) e = go (not (some_text (strip py t))) (py.float_text t) e
    where
      go :
          (b : Bool) (o : Option Real)
          → is_uncaught (if b then reads none else to_seconds py (to_converted o)) ≡ true
          → (m : Integer) × (py.float_integer m ≡ none) × (text t ≡ integer m)
      go true o e = cc
      go false none e = cc
      go false (some seconds) e = let caught = seconds-caught seconds in cc

  pub options-uncaught :
      (options : Members)
      → is_uncaught (from_options py options) ≡ true
      → HasInfinitePort options ⊎ HasHugeWindow options
  unfolding from_options
  options-uncaught options e =
      let user = strip py (str_or_empty py (get options key_username)) in
      let word = str_or_empty py (get options key_password) in
      let e1 =
        refuse-uncaught (not (some_text user) || not (some_text word)) no_credentials
          (with_credentials py options user word) e in
      elim (bind-uncaught (raw_cameras py (get options key_cameras))
        (read_cameras py options user word) e1) [
          | inl raises ↦ let caught = raw_cameras-caught (get options key_cameras) in cc
          | inr (raw, in_list, e2) ↦
              elim (bind-uncaught (cameras_from py raw 0) (check_cameras py options user word) e2) [
                | inl raises ↦
                    let f = cameras-uncaught raw 0 raises in
                    inl (record {
                      entries = raw;
                      entry = f.entry;
                      index = f.index;
                      sign = f.sign;
                      in_list = in_list-array (get options key_cameras) raw in_list;
                      is_entry = f.is_entry;
                      unbounded = f.unbounded;
                    })
                | inr (cs, read, e3) ↦
                    let e4 =
                      refuse-uncaught (has_twice same_text (map (λ c. c.serial) cs)) serial_twice
                        (refuse (has_twice (λ a b. a == b) (map (λ c. c.port) cs)) port_twice (
                          as_seconds py (get options key_audio_window)
                          >>= configure py options user word cs))
                        e3 in
                    let e5 =
                      refuse-uncaught (has_twice (λ a b. a == b) (map (λ c. c.port) cs)) port_twice
                        (as_seconds py (get options key_audio_window)
                          >>= configure py options user word cs)
                        e4 in
                    elim (bind-uncaught (as_seconds py (get options key_audio_window))
                      (configure py options user word cs) e5) [
                        | inl raises ↦
                            let (n, huge, same) =
                              window-uncaught (get options key_audio_window) raises in
                            inr (record { number = n; huge = huge; window = same })
                        | inr (window, read', e6) ↦ cc
                      ]
              ]
        ]
