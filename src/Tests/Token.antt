-- ===== src/Tests/Token.antt =====
-- ezviz_stream_bridge/token.py on concrete files.
use ezviz_stream_bridge.Prelude.{◌≡◌, ◌⊎◌, refl, true, false, none, some, [], ◌∷◌, arith}
use ezviz_stream_bridge.Rtp.Detect.{contains}
use ezviz_stream_bridge.Supervisor.{ensured, ensure_failed}
use ezviz_stream_bridge.Token.{
  Token, object, not_text, Files, found, read_token_file, Probe, returned, expired, http_error,
  logged_in, status_from, http_status, works, load, write, ensure,
}
use ezviz_stream_bridge.Token.Write.{write_atomic}
use ezviz_stream_bridge.Token.Ensure.{ensure-read_token_file}

abbrev old_token : Token
old_token = record { session_id = 7; others = [] }

abbrev new_token : Token
new_token = record { session_id = 8; others = [] }

abbrev stored : Files
stored = record {
  target = some (record { content = object old_token; owner_only = true });
  temporary = none;
}

abbrev broken : Files
broken = record {
  target = some (record { content = not_text; owner_only = true });
  temporary = none;
}

write_atomic_example :
    ((write new_token stored 3).target ≡ stored.target)
    ⊎ ((write new_token stored 3).target
        ≡ some (record { content = object new_token; owner_only = true }))
write_atomic_example = write_atomic new_token stored 3

-- The library's error carries no status, and the error that caused it has 401.
abbrev rejected : Probe
rejected =
    http_error
      (record { identity = 1; status = none } ∷ record { identity = 2; status = some 401 } ∷ [])

works-rejected : works rejected ≡ some false
unfolding works http_status status_from contains
works-rejected = refl

-- A file that is no text is not replaced, whatever the cloud would answer.
broken_ensured : ensure broken true expired (logged_in new_token) 5 ≡ (broken, ensure_failed)
unfolding ensure load
broken_ensured = refl

ensure_kept : (ensure stored true returned (logged_in new_token) 5).1 ≡ ensured
unfolding ensure load works
ensure_kept = refl

ensure-read_token_file_example :
    (token : Token) × (read_token_file (ensure stored true returned (logged_in new_token) 5).0 true
      ≡ found token)
ensure-read_token_file_example =
    ensure-read_token_file stored true returned (logged_in new_token) 5 ensure_kept
      (λ token e. ground arith)
