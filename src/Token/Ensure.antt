-- ===== src/Token/Ensure.antt =====
-- About `ensure`: when it logs in, and what it leaves for the proxy.
use ezviz_stream_bridge.Prelude.{
  ℕ, ◌≤◌, ◌<◌, ◌≡◌, ◌⊎◌, refl, inl, inr, Bool, true, false, Option, none, some, List, arith, leb,
  leb→le, Bool-cases, not, if◌then◌else◌,
}
use ezviz_stream_bridge.Rtp.Detect.{contains}
use ezviz_stream_bridge.Supervisor.{Ensured, ensured, mfa_required, ensure_failed}
use ezviz_stream_bridge.Token.{
  Token, Content, not_text, not_json, out_of_limits, no_object, object, usable, File, Files, Loaded,
  found, nothing, load_raises, read_token_file, load, Raised, http_status, Probe, returned, expired,
  http_error, cloud_error, unexpected, is_unauthenticated, works, Login, logged_in, asks_code,
  refused, login_unexpected, login, ensure,
}
use ezviz_stream_bridge.Token.Write.{write-done, write-target}

-- The cloud said that the session is over: the token has expired, or the status of the error is
-- 401 or 403.
pub data SaysDead : Probe → Type 0 where
  is_expired : SaysDead expired
  is_rejected :
      (chain : List Raised)
      → (http_status chain ≡ some 401) ⊎ (http_status chain ≡ some 403)
      → SaysDead (http_error chain)

-- A login is due: there is no stored token, or the cloud said that it is dead.
abbrev pub IsDue : Files → Bool → Probe → Type 0
IsDue files readable probe = (load files readable ≡ nothing) ⊎ SaysDead probe

-- What makes `ensure` raise anything but the missing verification code before it writes: a token file
-- that can be read and is no UTF-8, or on which `json.loads` raises anything but a `JSONDecodeError`; a
-- call of the cloud that ends in an exception `_works` does not know; and a login that is due and is
-- refused or breaks.
pub data Fault (files : Files) (readable : Bool) (probe : Probe) (answer : Login) : Type 0 where
  unloadable :
      (file : File)
      → readable ≡ true
      → files.target ≡ some file
      → (file.content ≡ not_text) ⊎ (file.content ≡ out_of_limits)
      → Fault files readable probe answer
  odd_probe :
      (token : Token)
      → load files readable ≡ found token
      → probe ≡ unexpected
      → Fault files readable probe answer
  no_login :
      IsDue files readable probe
      → (answer ≡ refused) ⊎ (answer ≡ login_unexpected)
      → Fault files readable probe answer

-- What `ensure` may do.
pub data Ensures (files : Files) (readable : Bool) (probe : Probe) (answer : Login) (done : ℕ)
    : Files × Ensured → Type 0 where
  -- The stored token is kept, with no login, unless the cloud itself said that it is dead.
  keeps :
      (token : Token)
      → load files readable ≡ found token
      → ¬ SaysDead probe
      → Ensures files readable probe answer done (files, ensured)
  -- A login replaces no token, or one that the cloud refuses, and its token is on disk.
  renews :
      (token : Token)
      → IsDue files readable probe
      → answer ≡ logged_in token
      → 5 ≤ done
      → Ensures files readable probe answer done (
        record {
          target = some (record { content = object token; owner_only = true });
          temporary = none;
        },
        ensured,
      )
  asks :
      IsDue files readable probe
      → answer ≡ asks_code
      → Ensures files readable probe answer done (files, mfa_required)
  -- It raises and leaves the files as they are.
  fails :
      Fault files readable probe answer
      → Ensures files readable probe answer done (files, ensure_failed)
  -- The write of a new token does not get to its end, and leaves the token file as it is.
  breaks_off :
      {files' : Files} (token : Token)
      → IsDue files readable probe
      → answer ≡ logged_in token
      → done < 5
      → files'.target ≡ files.target
      → Ensures files readable probe answer done (files', ensure_failed)

works-SaysDead : (probe : Probe) → works probe ≡ some false → SaysDead probe
unfolding works contains
works-SaysDead returned e = absurd (ground arith)
works-SaysDead expired e = is_expired
works-SaysDead (http_error chain) e = is_rejected chain (go (http_status chain) e)
  where
    go :
        (o : Option ℕ)
        → some (not (is_unauthenticated o)) ≡ some false
        → (o ≡ some 401) ⊎ (o ≡ some 403)
    go none e = absurd (ground arith)
    go (some status) e = ground arith
works-SaysDead cloud_error e = absurd (ground arith)
works-SaysDead unexpected e = absurd (ground arith)

works-alive : (probe : Probe) → works probe ≡ some true → ¬ SaysDead probe
unfolding works contains
works-alive probe e is_expired = ground arith
works-alive probe e (is_rejected chain (inl h)) = ground (arith, h)
works-alive probe e (is_rejected chain (inr h)) = ground (arith, h)

works-unexpected : (probe : Probe) → works probe ≡ none → probe ≡ unexpected
unfolding works
works-unexpected returned e = absurd (ground arith)
works-unexpected expired e = absurd (ground arith)
works-unexpected (http_error chain) e = absurd (ground arith)
works-unexpected cloud_error e = absurd (ground arith)
works-unexpected unexpected e = refl

usable-raises :
    (content : Content)
    → usable content ≡ load_raises
    → (content ≡ not_text) ⊎ (content ≡ out_of_limits)
usable-raises not_text e = inl refl
usable-raises not_json e = cc
usable-raises out_of_limits e = inr refl
usable-raises no_object e = cc
usable-raises (object token) e = absurd (ground (arith, e))

load_raises-Fault :
    (files : Files) (readable : Bool) (probe : Probe) (answer : Login)
    → load files readable ≡ load_raises
    → Fault files readable probe answer
unfolding load
load_raises-Fault files readable probe answer e = go files.target refl readable refl e
  where
    go :
        (o : Option File)
        → files.target ≡ o
        → (b : Bool) → readable ≡ b
        → elim o [ none ↦ nothing | some file ↦ if not b then nothing else usable file.content ]
          ≡ load_raises
        → Fault files readable probe answer
    go none h b r e = cc
    go (some file) h false r e = cc
    go (some file) h true r e = unloadable file r h (usable-raises file.content e)

login-Ensures :
    (files : Files) (readable : Bool) (probe : Probe) (answer : Login) (done : ℕ)
    → IsDue files readable probe
    → Ensures files readable probe answer done (login files answer done)
unfolding login
login-Ensures files readable probe (logged_in token) done why = elim (Bool-cases (leb 5 done)) [
  | inl all ↦
      let enough = leb→le 5 done all in
      rw all (rw (write-done token files done enough) (renews token why refl enough))
  | inr part ↦
      let few : done < 5 = ground (arith, part) in
      rw part (breaks_off token why refl few (write-target token files done few))
]
login-Ensures files readable probe asks_code done why = asks why refl
login-Ensures files readable probe refused done why = fails (no_login why (inl refl))
login-Ensures files readable probe login_unexpected done why = fails (no_login why (inr refl))

pub ensure-Ensures :
    (files : Files) (readable : Bool) (probe : Probe) (answer : Login) (done : ℕ)
    → Ensures files readable probe answer done (ensure files readable probe answer done)
unfolding ensure
ensure-Ensures files readable probe answer done = go (load files readable) refl (works probe) refl
  where
    go :
        (l : Loaded)
        → load files readable ≡ l
        → (w : Option Bool) → works probe ≡ w
        → Ensures files readable probe answer done (elim l [
          | load_raises ↦ (files, ensure_failed)
          | nothing ↦ login files answer done
          | found token ↦ elim w [
            | none ↦ (files, ensure_failed)
            | some true ↦ (files, ensured)
            | some false ↦ login files answer done
          ]
        ])
    go load_raises e w f = fails (load_raises-Fault files readable probe answer e)
    go nothing e w f = login-Ensures files readable probe answer done (inl e)
    go (found token) e none f = fails (odd_probe token e (works-unexpected probe f))
    go (found token) e (some true) f = keeps token e (works-alive probe f)
    go (found token) e (some false) f =
        login-Ensures files readable probe answer done (inr (works-SaysDead probe f))

found_again :
    (files : Files) (readable : Bool) (token : Token)
    → load files readable ≡ found token
    → read_token_file files true ≡ found token
unfolding load read_token_file
found_again files true token e = ground arith
found_again files false token e = ground arith

Ensures-read_token_file :
    (files : Files) (readable : Bool) (probe : Probe) (answer : Login) (done : ℕ)
    (r : Files × Ensured)
    → Ensures files readable probe answer done r
    → r.1 ≡ ensured
    → ((token : Token) → answer ≡ logged_in token → 1 ≤ token.session_id)
    → (token : Token) × (read_token_file r.0 true ≡ found token)
unfolding read_token_file
Ensures-read_token_file files readable probe answer done r (keeps token e alive) h good =
    (token, found_again files readable token e)
Ensures-read_token_file files readable probe answer done r (renews token why e enough) h good =
    let g = good token e in (token, ground arith)
Ensures-read_token_file files readable probe answer done r (asks why e) h good =
    absurd (ground arith)
Ensures-read_token_file files readable probe answer done r (fails fault) h good =
    absurd (ground arith)
Ensures-read_token_file files readable probe answer done r (breaks_off token why e few same) h
      good =
    absurd (ground arith)

-- What the supervisor waits for is what the proxy needs: once `ensure` returned, the proxy's
-- `read_token_file` finds a token in the file, provided that a token from a login has a session.
pub ensure-read_token_file :
    (files : Files) (readable : Bool) (probe : Probe) (answer : Login) (done : ℕ)
    → (ensure files readable probe answer done).1 ≡ ensured
    → ((token : Token) → answer ≡ logged_in token → 1 ≤ token.session_id)
    → (token : Token) × (read_token_file (ensure files readable probe answer done).0 true
        ≡ found token)
ensure-read_token_file files readable probe answer done h good =
    Ensures-read_token_file files readable probe answer done _
      (ensure-Ensures files readable probe answer done) h good
