-- ===== src/Store/Sessions/Live.antt =====
-- src/store.rs: which tokens open the management surface, and for how long.
use local_api_relay.Common.{
  Bool, true, false, not, ◌&&◌, Option, none, some, List, [], ◌∷◌, ◌++◌, any, arith, ◌≡◌, refl, ap,
  Bool-cases, inl, inr, if◌then◌else◌, find_where, delete_where, find_where-append, find_where-one,
}
use local_api_relay.Common.Int.{ℤ, ltb_ℤ, ◌≤ℤ◌}
use local_api_relay.Common.Text.{Text, text_eq, text_eq_iff}
use local_api_relay.Store.{Result, ok, err}
use local_api_relay.Store.Ensures.{Ensures, failed, done, Ensures-bind, Ensures-guard, ensured}
use local_api_relay.Store.Sessions.{
  SessionKind, Credential, bootstrap, active, Session, Administrator, is_live, has_hash, is_expired,
  kind_of, is_bootstrap_session, insert_session, admit, login_with, login, session,
  validate_password, change_password, logout,
}

module _ {A : Type 0} (q p : A → Bool) where
  -- A row that is looked for and not deleted is still found; one that is deleted is not.
  pub find-delete_apart :
      ((x : A) → q x ≡ true → p x ≡ false)
      → (xs : List A) → find_where q (delete_where p xs) ≡ find_where q xs
  unfolding find_where delete_where
  find-delete_apart apart [] = refl
  find-delete_apart apart (x ∷ xs) = ground (arith, apart x, find-delete_apart apart xs)

  pub find-delete_all :
      ((x : A) → q x ≡ true → p x ≡ true) → (xs : List A) → find_where q (delete_where p xs) ≡ none
  unfolding find_where delete_where
  find-delete_all all [] = refl
  find-delete_all all (x ∷ xs) = ground (arith, all x, find-delete_all all xs)

  pub find_none :
      ((x : A) → q x ≡ true → p x ≡ true)
      → (xs : List A) → any p xs ≡ false
      → find_where q xs ≡ none
  unfolding find_where
  find_none sub [] h = refl
  find_none sub (x ∷ xs) h = ground (arith, sub x, find_none sub xs)

-- The kind of session that a token's hash opens at a time.
unfoldable pub live : Administrator → ℤ → Text → Option SessionKind
live a now hash = kind_of (find_where (is_live now hash) a.sessions)

pub data SessionOp : Type 0 where
  sign_in : Text → Text → ℤ → SessionOp
  look_up : Text → SessionOp
  set_password : Text → Text → Text → Text → ℤ → SessionOp
  sign_out : Text → SessionOp

-- The sessions by the hash of their token, at a time.
abbrev pub Sessions : Type 0
Sessions = ℤ → Text → Option SessionKind

-- One more session, while it lasts.
abbrev with_session : Text → SessionKind → ℤ → Sessions → Sessions
with_session hash kind expires_at old later x =
    if text_eq hash x && ltb_ℤ later expires_at then some kind else old later x

abbrev signed_in : Text → ℤ → Option SessionKind → Sessions → Sessions
signed_in hash expires_at none old = old
signed_in hash expires_at (some kind) old = with_session hash kind expires_at old

abbrev answer : Result (Administrator × Option SessionKind) → Option SessionKind
answer (err why) = none
answer (ok p) = p.1

abbrev state : Result (Administrator × Option SessionKind) → Result Administrator
state (err why) = err why
state (ok p) = ok p.0

module _ (hash_token : Text → Text) (verify : Text → Text → Result Bool) where
  unfoldable pub apply : Administrator → ℤ → SessionOp → Result Administrator
  apply a now (sign_in token password expires_at) =
      state (login hash_token verify a token password expires_at)
  apply a now (look_up token) = ok (session hash_token verify a now token).0
  apply a now (set_password old password password_hash token expires_at) =
      change_password hash_token verify a now old password password_hash token expires_at
  apply a now (sign_out token) = ok (logout hash_token verify a token)

  -- What the operation does to the sessions when it succeeds; a login may still be refused.
  unfoldable pub changed : Administrator → SessionOp → Sessions → Sessions
  changed a (sign_in token password expires_at) old =
      signed_in (hash_token token) expires_at
        (answer (login hash_token verify a token password expires_at)) old
  changed a (look_up token) old = old
  changed a (set_password bootstrap_token password password_hash token expires_at) old =
      with_session (hash_token token) active expires_at (λ later x. none)
  changed a (sign_out token) old =
      λ later x. if text_eq (hash_token token) x then none else old later x

  module _ (a : Administrator) where
    -- Looking up a session forgets the expired ones, which no later lookup would find.
    look_up-live :
        (now later : ℤ) (token hash : Text)
        → now ≤ℤ later
        → live (session hash_token verify a now token).0 later hash ≡ live a later hash
    unfolding session live
    look_up-live now later token hash after =
        ap kind_of
          (find-delete_apart (is_live later hash) (is_expired now) (λ x e. ground arith) a.sessions)

    sign_out-live :
        (token hash : Text) (now : ℤ)
        → live (logout hash_token verify a token) now hash
          ≡ (if text_eq (hash_token token) hash then none else live a now hash)
    unfolding logout live
    sign_out-live token hash now = elim (Bool-cases (text_eq (hash_token token) hash)) [
      | inl same ↦
          let e : hash_token token ≡ hash = (text_eq_iff (hash_token token) hash).0 same in
          rw same (
            ap kind_of (
              find-delete_all (is_live now hash) (has_hash (hash_token token))
                (λ x found. rw e (ground arith)) a.sessions))
      | inr other ↦ rw other (
          ap kind_of (
            find-delete_apart (is_live now hash) (has_hash (hash_token token))
              (λ x found. ground (
                arith,
                text_eq_iff x.token_hash (hash_token token),
                text_eq_iff x.token_hash hash,
                text_eq_iff (hash_token token) hash,
              ))
              a.sessions))
    ]

    insert-live :
        (new : Session) (later : ℤ) (hash : Text)
        → any (has_hash new.token_hash) a.sessions ≡ false
        → live (record a { sessions = a.sessions ++ new ∷ [] }) later hash
          ≡ with_session new.token_hash new.kind new.expires_at (live a) later hash
    unfolding live
    insert-live new later hash free =
        rw (find_where-append (is_live later hash) a.sessions (new ∷ [])) (
          rw (find_where-one (is_live later hash) new)
            (elim (Bool-cases (text_eq new.token_hash hash)) [
              | inl same ↦
                  let e : new.token_hash ≡ hash = (text_eq_iff new.token_hash hash).0 same in
                  let gone : find_where (is_live later hash) a.sessions ≡ none =
                    find_none (is_live later hash) (has_hash new.token_hash)
                      (λ x found. rw e (ground arith)) a.sessions free in
                  rw gone (rw same (ground arith))
              | inr other ↦ rw other (ground arith)
            ]))

    inserted_live :
        (later : ℤ) (hash : Text) (new : Session)
        → Ensures
            (λ a'.
              live a' later hash
              ≡ with_session new.token_hash new.kind new.expires_at (live a) later hash)
            (insert_session a new)
    unfolding insert_session
    inserted_live later hash new =
        Ensures-guard (not (any (has_hash new.token_hash) a.sessions)) _
          λ free. done (insert-live new later hash (ground arith))

    admit-live :
        (later : ℤ) (token hash : Text) (expires_at : ℤ) (must_change matches : Bool)
        → Ensures
            (λ (p : Administrator × Option SessionKind).
              live p.0 later hash ≡ signed_in (hash_token token) expires_at p.1 (live a) later hash)
            (admit hash_token verify a token expires_at must_change matches)
    unfolding admit
    admit-live later token hash expires_at must_change false = done refl
    admit-live later token hash expires_at must_change true =
        let new : Session = record {
          token_hash = hash_token token;
          kind = if must_change then bootstrap else active;
          expires_at = expires_at;
        } in
        Ensures-bind (insert_session a new)
          λ a' inserted. done (ensured (inserted_live later hash new) a' inserted)

    login-live :
        (later : ℤ) (token password hash : Text) (expires_at : ℤ) (c : Option Credential)
        → Ensures
            (λ (p : Administrator × Option SessionKind).
              live p.0 later hash ≡ signed_in (hash_token token) expires_at p.1 (live a) later hash)
            (login_with hash_token verify a token password expires_at c)
    unfolding login_with
    login-live later token password hash expires_at none = done refl
    login-live later token password hash expires_at (some c) =
        Ensures-bind (verify password c.password_hash)
          λ matches _. admit-live later token hash expires_at c.must_change matches

    sign_in-live :
        (later : ℤ) (hash token_hash : Text) (expires_at : ℤ)
        (r : Result (Administrator × Option SessionKind))
        → Ensures
            (λ (p : Administrator × Option SessionKind).
              live p.0 later hash ≡ signed_in token_hash expires_at p.1 (live a) later hash)
            r
        → Ensures
            (λ a'.
              live a' later hash ≡ signed_in token_hash expires_at (answer r) (live a) later hash)
            (state r)
    sign_in-live later hash token_hash expires_at r failed = failed
    sign_in-live later hash token_hash expires_at r (done p) = done p

    set_password-live :
        (now later : ℤ) (old password password_hash token hash : Text) (expires_at : ℤ)
        → Ensures
            (λ a'.
              live a' later hash
              ≡ with_session (hash_token token) active expires_at (λ later x. none) later hash)
            (change_password hash_token verify a now old password password_hash token expires_at)
    unfolding change_password live find_where
    set_password-live now later old password password_hash token hash expires_at =
        Ensures-bind (validate_password password) λ unit _.
          Ensures-guard
            (is_bootstrap_session (kind_of (find_where (is_live now (hash_token old)) a.sessions)))
            _ λ _. done (ground arith)

  -- What an operation of the administrator that succeeds does to the sessions, at any later time
  -- and for any token hash: a login adds its session, or none if it is refused; a lookup, which
  -- deletes expired sessions, changes nothing; a logout ends that session; and a password change
  -- ends every session but the new active one.
  pub apply-live :
      (a a' : Administrator) (now later : ℤ) (op : SessionOp) (hash : Text)
      → apply a now op ≡ ok a'
      → now ≤ℤ later
      → live a' later hash ≡ changed a op (live a) later hash
  unfolding apply changed login
  apply-live a a' now later (sign_in token password expires_at) hash e after =
      let r = login hash_token verify a token password expires_at in
      ensured
        (sign_in-live a later hash (hash_token token) expires_at r
          (login-live a later token password hash expires_at a.credential))
        a' e
  apply-live a a' now later (look_up token) hash e after =
      ensured {P = λ a'. live a' later hash ≡ live a later hash}
        (done (look_up-live a now later token hash after)) a' e
  apply-live a a' now later (set_password old password password_hash token expires_at) hash e
        after =
      ensured (set_password-live a now later old password password_hash token hash expires_at) a' e
  apply-live a a' now later (sign_out token) hash e after =
      ensured
        {P = λ a'.
          live a' later hash
          ≡ (if text_eq (hash_token token) hash then none else live a later hash)}
        (done (sign_out-live a token hash later)) a' e
