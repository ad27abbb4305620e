-- ===== src/Config/Document.antt =====
-- What the standard library's `json` makes of a document, and the built-in functions of Python that
-- ezviz_stream_bridge/config.py calls on it.
use ezviz_stream_bridge.Prelude.{
  ℕ, Bool, true, false, not, ◌&&◌, Option, none, some, List, [], ◌∷◌, ◌==◌, if◌then◌else◌,
}

-- A text, by its code points.
abbrev pub Text : Type 0
Text = List ℕ

abbrev pub same_text : Text → Text → Bool
same_text [] [] = true
same_text (a ∷ s) (b ∷ t) = a == b && same_text s t
same_text _ _ = false

abbrev pub some_text : Text → Bool
some_text [] = false
some_text (c ∷ t) = true

-- A whole number, by its sign and its size.
pub record Integer : Type 0 where
  pub is_negative : Bool
  pub size : ℕ

-- A floating-point number; a finite one by its sign, its whole part and what stands behind the point.
pub data Real : Type 0 where
  finite : Bool → ℕ → ℕ → Real
  infinite : Bool → Real
  nan : Real

mutual
  pub data Json : Type 0 where
    null : Json
    boolean : Bool → Json
    integer : Integer → Json
    real : Real → Json
    text : Text → Json
    array : Values → Json
    object : Members → Json

  pub data Values : Type 0 where
    no_values : Values
    value : Json → Values → Values

  pub data Members : Type 0 where
    no_members : Members
    member : Text → Json → Members → Members

-- `members.get(key, default)`
unfoldable pub get_default : Members → Text → Json → Json
get_default no_members key missing = missing
get_default (member k json fields) key missing =
    let rest = get_default fields key missing in if same_text key k then json else rest

-- `members.get(key)`
abbrev pub get : Members → Text → Json
get fields key = get_default fields key null

-- `value != 0`
abbrev pub is_zero : Real → Bool
is_zero (finite negative whole fraction) = whole == 0 && fraction == 0
is_zero (infinite negative) = false
is_zero nan = false

-- The truth value of an object.
abbrev pub truthy : Json → Bool
truthy null = false
truthy (boolean b) = b
truthy (integer n) = not (n.size == 0)
truthy (real r) = not (is_zero r)
truthy (text t) = some_text t
truthy (array no_values) = false
truthy (array (value json entries)) = true
truthy (object no_members) = false
truthy (object (member k json fields)) = true

-- `value or text`
abbrev pub or_text : Json → Text → Json
or_text json t = if truthy json then json else text t

-- How a conversion ends: `ValueError` and `TypeError` are caught, `OverflowError` is not.
pub data Converted (A : Type 0) : Type 0 where
  converts : A → Converted A
  not_a_number overflows : Converted A

abbrev pub to_converted : {A : Type 0} → Option A → Converted A
to_converted none = not_a_number
to_converted (some a) = converts a

abbrev pub or_overflow : {A : Type 0} → Option A → Converted A
or_overflow none = overflows
or_overflow (some a) = converts a

abbrev pub bit_of : Bool → ℕ
bit_of true = 1
bit_of false = 0

-- What Python knows of characters, texts and numbers: which characters are spaces, letters or digits;
-- `upper`, `lower`; `str` of what is not a text; `int` and `float` of a text, where `none` is a
-- `ValueError`; and `float` of a whole number, where `none` is an `OverflowError`.
pub record Python : Type 0 where
  pub is_space : ℕ → Bool
  pub is_alnum : ℕ → Bool
  pub upper : Text → Text
  pub lower : Text → Text
  pub str_other : Json → Text
  pub int_text : Text → Option Integer
  pub float_text : Text → Option Real
  pub float_integer : Integer → Option Real

module _ (py : Python) where
  -- `str`
  abbrev pub str : Json → Text
  str (text t) = t
  str json = py.str_other json

  unfoldable pub lstrip : Text → Text
  lstrip [] = []
  lstrip (c ∷ t) = let rest = lstrip t in if py.is_space c then rest else c ∷ t

  abbrev pub drop_space : ℕ → Text → Text
  drop_space c [] = if py.is_space c then [] else c ∷ []
  drop_space c (d ∷ t) = c ∷ d ∷ t

  unfoldable pub rstrip : Text → Text
  rstrip [] = []
  rstrip (c ∷ t) = drop_space c (rstrip t)

  -- `strip`
  abbrev pub strip : Text → Text
  strip t = rstrip (lstrip t)

  unfoldable pub all_alnum : Text → Bool
  all_alnum [] = true
  all_alnum (c ∷ t) = py.is_alnum c && all_alnum t

  -- `isalnum`
  abbrev pub isalnum : Text → Bool
  isalnum t = some_text t && all_alnum t

  -- `int`
  abbrev pub int : Json → Converted Integer
  int null = not_a_number
  int (boolean b) = converts (record { is_negative = false; size = bit_of b })
  int (integer n) = converts n
  int (real (finite negative whole fraction)) =
      converts (record { is_negative = negative; size = whole })
  int (real (infinite negative)) = overflows
  int (real nan) = not_a_number
  int (text t) = to_converted (py.int_text t)
  int (array entries) = not_a_number
  int (object fields) = not_a_number

  -- `float`
  abbrev pub float : Json → Converted Real
  float null = not_a_number
  float (boolean b) = converts (finite false (bit_of b) 0)
  float (integer n) = or_overflow (py.float_integer n)
  float (real r) = converts r
  float (text t) = to_converted (py.float_text t)
  float (array entries) = not_a_number
  float (object fields) = not_a_number
