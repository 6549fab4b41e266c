-- ===== src/Store/Sessions.antt =====
-- src/store.rs: the administrator's credential and sessions. A new secret, and the salted hash that a
-- password gets, are arguments; the SHA-256 of a token is `hash_token`, and the check of a password
-- against its hash is `verify`.
pub mod Live
use local_api_relay.Common.{
  ℕ, Bool, true, false, not, ◌&&◌, Option, none, some, List, [], ◌∷◌, ◌++◌, any, is_some, ltb,
  if◌then◌else◌, find_where, delete_where,
}
use local_api_relay.Common.Int.{ℤ, ltb_ℤ, leb_ℤ}
use local_api_relay.Common.Text.{Text, text_eq, byte_len}
use local_api_relay.Store.{Result, ok, err, ◌>>=◌, ◌>>◌, guard, bail, sql}

pub data SessionKind : Type 0 where
  bootstrap active : SessionKind

abbrev pub is_bootstrap : SessionKind → Bool
is_bootstrap bootstrap = true
is_bootstrap active = false

-- The row of `administrator_credentials`.
pub record Credential : Type 0 where
  pub password_hash : Text
  pub must_change : Bool

-- A row of `administrator_sessions`; its column `kind` holds one of the two texts by a constraint.
pub record Session : Type 0 where
  pub token_hash : Text
  pub kind : SessionKind
  pub expires_at : ℤ

-- The tables of the administrator; no other operation uses them.
pub record Administrator : Type 0 where
  pub credential : Option Credential
  pub sessions : List Session

unfoldable pub initialize_administrator : Administrator → Text → Result Administrator
initialize_administrator a password_hash = do
  guard (not (is_some a.credential)) (bail "administrator has already been initialized")
  ok (record a { credential = some (record { password_hash = password_hash; must_change = true }) })

-- `expires_at > now`, for the session of a token.
abbrev pub is_live : ℤ → Text → Session → Bool
is_live now hash x = text_eq x.token_hash hash && ltb_ℤ now x.expires_at

abbrev pub has_hash : Text → Session → Bool
has_hash hash x = text_eq x.token_hash hash

abbrev pub is_expired : ℤ → Session → Bool
is_expired now x = leb_ℤ x.expires_at now

abbrev pub kind_of : Option Session → Option SessionKind
kind_of none = none
kind_of (some x) = some x.kind

abbrev pub is_bootstrap_session : Option SessionKind → Bool
is_bootstrap_session none = false
is_bootstrap_session (some k) = is_bootstrap k

-- The hashes of the tokens are unique.
unfoldable pub insert_session : Administrator → Session → Result Administrator
insert_session a new = do
  guard (not (any (has_hash new.token_hash) a.sessions)) sql
  ok (record a { sessions = a.sessions ++ new ∷ [] })

-- `validate_password` of src/auth.rs; lengths are in bytes.
unfoldable pub validate_password : Text → Result (Unit {0})
unfolding byte_len
validate_password password = do
  guard (not (ltb (byte_len password) 16)) (bail "password must be at least 16 characters long")
  guard (not (ltb 256 (byte_len password))) (bail "password must be at most 256 characters long")

module _ (hash_token : Text → Text) (verify : Text → Text → Result Bool) where
  -- `none` is a login that is refused; the token of one that succeeds is `token`.
  -- A login that matched or not, and one whose credential was read.
  unfoldable pub admit :
      Administrator → Text → ℤ → Bool → Bool → Result (Administrator × Option SessionKind)
  unfolding insert_session
  admit a token expires_at must_change false = ok (a, none)
  admit a token expires_at must_change true = do
    let kind = if must_change then bootstrap else active
    a' ←
        insert_session a
          (record { token_hash = hash_token token; kind = kind; expires_at = expires_at })
    ok (a', some kind)

  unfoldable pub login_with :
      Administrator
      → Text
      → Text
      → ℤ
      → Option Credential
      → Result (Administrator × Option SessionKind)
  unfolding admit
  login_with a token password expires_at none = ok (a, none)
  login_with a token password expires_at (some c) = do
    matches ← verify password c.password_hash
    admit a token expires_at c.must_change matches

  unfoldable pub login :
      Administrator → Text → Text → ℤ → Result (Administrator × Option SessionKind)
  unfolding login_with
  login a token password expires_at = login_with a token password expires_at a.credential

  unfoldable pub session : Administrator → ℤ → Text → Administrator × Option SessionKind
  session a now token =
      let a' = record a { sessions = delete_where (is_expired now) a.sessions } in
      (a', kind_of (find_where (is_live now (hash_token token)) a'.sessions))

  unfoldable pub change_password :
      Administrator → ℤ → Text → Text → Text → Text → ℤ → Result Administrator
  unfolding validate_password
  change_password a now bootstrap_token password password_hash token expires_at = do
    validate_password password
    guard
        (is_bootstrap_session
          (kind_of (find_where (is_live now (hash_token bootstrap_token)) a.sessions)))
        (bail "administrator password change requires the bootstrap session")
    ok (record {
      credential = elim a.credential [
        | none ↦ none
        | some c ↦ some (record { password_hash = password_hash; must_change = false })
      ];
      sessions =
          record { token_hash = hash_token token; kind = active; expires_at = expires_at } ∷ [];
    })

  unfoldable pub logout : Administrator → Text → Administrator
  logout a token = record a { sessions = delete_where (has_hash (hash_token token)) a.sessions }
