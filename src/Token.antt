-- ===== src/Token.antt =====
-- ezviz_stream_bridge/token.py: `TokenStore`. What the cloud and the file system answer during a
-- call is an argument.
pub mod Write
pub mod Ensure
use ezviz_stream_bridge.Prelude.{
  ℕ, ◌+◌, Bool, true, false, not, ◌||◌, Option, none, some, List, [], ◌∷◌, length, take, leb, ◌==◌,
  if◌then◌else◌,
}
use ezviz_stream_bridge.Rtp.Detect.{contains}
use ezviz_stream_bridge.Supervisor.{Ensured, ensured, mfa_required, ensure_failed}

-- The JSON object of a session: its `session_id`, 0 where that is missing or empty, and the rest.
pub record Token : Type 0 where
  pub session_id : ℕ
  pub others : List ℕ

-- What a file's bytes are: no UTF-8, text that is no JSON, text for which `json.loads` raises
-- something else, as it does for a number of too many digits and for values that are nested too
-- deeply, JSON that is not an object, or an object.
pub data Content : Type 0 where
  not_text not_json out_of_limits no_object : Content
  object : Token → Content

-- A file, and whether only its owner may read it.
pub record File : Type 0 where
  pub content : Content
  pub owner_only : Bool

-- The token file and the `.tmp` file beside it.
pub record Files : Type 0 where
  pub target : Option File
  pub temporary : Option File

-- How reading the token file ends: with a token, with `None`, or with an exception that is neither an
-- `OSError` nor a `JSONDecodeError`, such as `UnicodeDecodeError`, and so is not caught.
pub data Loaded : Type 0 where
  found : Token → Loaded
  nothing load_raises : Loaded

-- `isinstance(data, dict) and data.get("session_id")`, on what was read
abbrev pub usable : Content → Loaded
usable not_text = load_raises
usable not_json = nothing
usable out_of_limits = load_raises
usable no_object = nothing
usable (object token) = if token.session_id == 0 then nothing else found token

-- `read_token_file`; `readable` is whether the operating system lets the file be read.
unfoldable pub read_token_file : Files → Bool → Loaded
read_token_file files readable = elim files.target [
  | none ↦ nothing
  | some file ↦ if readable then usable file.content else nothing
]

-- `_load`, which tells the cases apart only in its warnings.
unfoldable pub load : Files → Bool → Loaded
load files readable = elim files.target [
  | none ↦ nothing
  | some file ↦ if not readable then nothing else usable file.content
]

-- An exception of the chain that `__cause__` makes: its identity, and the integer status code of
-- its response, if it has one.
pub record Raised : Type 0 where
  pub identity : ℕ
  pub status : Option ℕ

-- The loop of `_http_status` over the chain.
unfoldable pub status_from : List ℕ → List Raised → Option ℕ
status_from seen [] = none
status_from seen (current ∷ causes) =
    let rest = status_from (current.identity ∷ seen) causes in
    if contains seen current.identity
    then none
    else elim current.status [ none ↦ rest | some status ↦ some status ]

unfoldable pub http_status : List Raised → Option ℕ
http_status chain = status_from [] chain

abbrev pub unauthenticated_status : List ℕ
unauthenticated_status = 401 ∷ 403 ∷ []

-- How `get_device_infos` ends: it returns, or raises `EzvizAuthTokenExpired`, an `HTTPError` with
-- its chain, another `PyEzvizError`, or something else.
pub data Probe : Type 0 where
  returned expired : Probe
  http_error : List Raised → Probe
  cloud_error unexpected : Probe

-- `status in _UNAUTHENTICATED_STATUS`
abbrev pub is_unauthenticated : Option ℕ → Bool
is_unauthenticated none = false
is_unauthenticated (some status) = contains unauthenticated_status status

-- `_works`; `none` is an exception that it does not catch.
unfoldable pub works : Probe → Option Bool
unfolding http_status
works returned = some true
works expired = some false
works (http_error chain) = some (not (is_unauthenticated (http_status chain)))
works cloud_error = some true
works unexpected = none

-- How `login` and `export_token` end: with a token, or with `EzvizAuthVerificationCode`, another
-- `PyEzvizError`, or something else.
pub data Login : Type 0 where
  logged_in : Token → Login
  asks_code refused login_unexpected : Login

-- The steps of `_write`. `write_text` empties the file first, so it is two steps.
pub data FileStep : Type 0 where
  make_parent empty_temporary fill_temporary restrict replace_target : FileStep

abbrev pub write_steps : List FileStep
write_steps = make_parent ∷ empty_temporary ∷ fill_temporary ∷ restrict ∷ replace_target ∷ []

-- A new file is readable by others until `chmod`; an old one keeps its mode.
abbrev pub mode_of : Option File → Bool
mode_of none = false
mode_of (some file) = file.owner_only

unfoldable pub file_step : Token → Files → FileStep → Files
file_step token files make_parent = files
file_step token files empty_temporary = record files {
  temporary = some (record { content = not_json; owner_only = mode_of files.temporary });
}
file_step token files fill_temporary = record files {
  temporary = some (record { content = object token; owner_only = mode_of files.temporary });
}
file_step token files restrict = elim files.temporary [
  | none ↦ files
  | some file ↦ record files { temporary = some (record file { owner_only = true }) }
]
file_step token files replace_target = elim files.temporary [
  | none ↦ files
  | some file ↦ record { target = some file; temporary = none }
]

unfoldable pub file_steps : Token → Files → List FileStep → Files
unfolding file_step
file_steps token files [] = files
file_steps token files (step ∷ steps) = file_steps token (file_step token files step) steps

-- `_write`, of which the operating system lets `done` steps happen.
unfoldable pub write : Token → Files → ℕ → Files
unfolding file_steps
write token files done = file_steps token files (take done write_steps)

-- `_login`
unfoldable pub login : Files → Login → ℕ → Files × Ensured
unfolding write
login files (logged_in token) done =
    (write token files done, if leb (length write_steps) done then ensured else ensure_failed)
login files asks_code done = (files, mfa_required)
login files refused done = (files, ensure_failed)
login files login_unexpected done = (files, ensure_failed)

-- `ensure`
unfoldable pub ensure : Files → Bool → Probe → Login → ℕ → Files × Ensured
unfolding load works login
ensure files readable probe answer done = elim (load files readable) [
  | load_raises ↦ (files, ensure_failed)
  | nothing ↦ login files answer done
  | found token ↦ elim (works probe) [
    | none ↦ (files, ensure_failed)
    | some true ↦ (files, ensured)
    | some false ↦ login files answer done
  ]
]
