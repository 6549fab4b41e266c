-- ===== src/Server/Handlers/Access.antt =====
-- src/store.rs and src/server.rs: the relay access keys as the map from secrets to keys that
-- authentication reads, and what each operation on the keys does to it.
use mathlib.Core.Option
use local_api_relay.Common.{
  ◌≤◌, Bool, true, false, not, ◌&&◌, Option, none, some, List, [], ◌∷◌, ◌++◌, all, any, is_some,
  arith, ◌≡◌, refl, ap, subst, ◌∙◌, find_where, count_where, update_where, find_where-append,
  find_where-update, find_where-one, count_where-append, count_where-update, Bool-cases, inl, inr,
  if◌then◌else◌, ◌==◌,
}
use local_api_relay.Common.Text.{Text, text_eq, text_eq_iff}
use local_api_relay.Store.{AccessKey, Store, Result, ok, Env}
use local_api_relay.Store.Ensures.{Ensures, done, Ensures-bind, Ensures-guard, ensured}
use local_api_relay.Store.Routing.{route_of}
use local_api_relay.Store.Validation.{
  validate_relay_key_label, valid_eligible_model_route_ids, has_length,
}
use local_api_relay.Store.Keys.{
  is_key, in_scope, clashes, key_secret, new_key, revoke, create_relay_access_key,
  update_relay_access_key, revoke_relay_access_key,
}
use local_api_relay.Server.Handlers.{authenticate_relay_access_key}

pub data KeyOp : Type 0 where
  issue : Text → Text → Text → List Text → KeyOp
  edit : Text → Text → List Text → KeyOp
  withdraw : Text → KeyOp

-- The secrets that let a client in, and the key that each stands for.
abbrev pub Grants : Type 0
Grants = Text → Option Text

-- `secret_hash` is unique.
abbrev pub HashesUnique : Store → Type 0
HashesUnique s = (hash : Text) → count_where (λ k. text_eq k.secret_hash hash) s.keys ≤ 1

abbrev without : Text → Option Text → Option Text
without id none = none
without id (some k) = if text_eq k id then none else some k

module _ (hash_token : Text → Text) where
  -- What an operation that succeeds does to the grants.
  unfoldable pub granted : KeyOp → Grants → Grants
  granted (issue id drawn label ids) g x =
      if text_eq (hash_token (key_secret drawn)) (hash_token x) then some id else g x
  granted (edit id label ids) g x = g x
  granted (withdraw id) g x = without id (g x)

  unfoldable pub apply : Env → Store → KeyOp → Result Store
  apply env s (issue id drawn label ids) =
      create_relay_access_key hash_token env s id drawn label ids
  apply env s (edit id label ids) = update_relay_access_key env s id label ids
  apply env s (withdraw id) = revoke_relay_access_key env s id

  -- The grants after the operation, and that hashes stay unique.
  abbrev pub Refines : Store → KeyOp → Store → Type 0
  Refines s op s' =
      ((x : Text)
        → authenticate_relay_access_key hash_token s' x
          ≡ granted op (authenticate_relay_access_key hash_token s) x)
      × HashesUnique s'

  opens : Text → AccessKey → Bool
  opens x k = text_eq k.secret_hash (hash_token x) && not (is_some k.revoked_at)

  abbrev id_of : Option AccessKey → Option Text
  id_of none = none
  id_of (some k) = some k.id

  grants_lem :
      (s : Store) (x : Text)
      → authenticate_relay_access_key hash_token s x ≡ id_of (find_where (opens x) s.keys)
  unfolding authenticate_relay_access_key opens
  grants_lem s x = refl

  abbrev hashed : Text → AccessKey → Bool
  hashed x k = text_eq k.secret_hash (hash_token x)

  none-opens :
      (x : Text) (ks : List AccessKey)
      → count_where (hashed x) ks ≤ 0
      → find_where (opens x) ks ≡ none
  unfolding opens find_where count_where
  none-opens x [] h = refl
  none-opens x (k ∷ ks) h = ground (arith, none-opens x ks)

  withdrawn :
      (env : Env) (id x : Text) (ks : List AccessKey)
      → count_where (hashed x) ks ≤ 1
      → id_of (find_where (opens x) (update_where (is_key id) (revoke env) ks))
        ≡ without id (id_of (find_where (opens x) ks))
  unfolding opens find_where count_where update_where
  withdrawn env id x [] h = refl
  withdrawn env id x (k ∷ ks) h =
      let same = count_where-update (hashed x) (is_key id) (revoke env) (λ k e. refl) ks in
      ground (
        arith,
        withdrawn env id x ks,
        none-opens x ks,
        none-opens x (update_where (is_key id) (revoke env) ks),
        same,
      )

  -- A key whose hash clashes with no other.
  unclashed :
      (new : AccessKey) (ks : List AccessKey)
      → any (clashes new) ks ≡ false
      → count_where (λ k. text_eq k.secret_hash new.secret_hash) ks ≡ 0
  unfolding count_where
  unclashed new [] h = refl
  unclashed new (k ∷ ks) h = ground (arith, unclashed new ks)

  module _ (s : Store) (new : AccessKey) (free : any (clashes new) s.keys ≡ false) where
    -- No earlier key has the hash of the new one.
    fresh_hash :
        (hash : Text)
        → text_eq new.secret_hash hash ≡ true
        → count_where (λ (k : AccessKey). text_eq k.secret_hash hash) s.keys ≡ 0
    fresh_hash hash same =
        subst (λ z. count_where (λ (k : AccessKey). text_eq k.secret_hash z) s.keys ≡ 0)
          ((text_eq_iff new.secret_hash hash).0 same) (unclashed new s.keys free)

    issued :
        new.revoked_at ≡ none
        → (x : Text)
        → id_of (find_where (opens x) (s.keys ++ new ∷ [])) ≡ (
            if text_eq new.secret_hash (hash_token x)
            then some new.id
            else id_of (find_where (opens x) s.keys))
    issued unrevoked x = rw (find_where-append (opens x) s.keys (new ∷ [])) (
        rw (find_where-one (opens x) new)
          (elim (Bool-cases (text_eq new.secret_hash (hash_token x))) [
            | inl same ↦
                let missing : find_where (opens x) s.keys ≡ none =
                  none-opens x s.keys (omega (arith, fresh_hash (hash_token x) same)) in
                let hit : opens x new ≡ true = unfold opens in rw (same, unrevoked) in
                rw missing (rw hit (rw same))
            | inr other ↦
                let miss : opens x new ≡ false = unfold opens in rw other in
                rw miss (rw other (ground arith))
          ]))

    issued_unique : HashesUnique s → HashesUnique (record s { keys = s.keys ++ new ∷ [] })
    unfolding count_where
    issued_unique unique hash =
        let same_hash = λ (k : AccessKey). text_eq k.secret_hash hash in
        ground (arith, count_where-append same_hash s.keys (new ∷ []), fresh_hash hash, unique hash)

  module _ (env : Env) (s : Store) (unique : HashesUnique s) where
    issue-Refines :
        (id drawn label : Text) (ids : List Text)
        → Ensures (Refines s (issue id drawn label ids)) (apply env s (issue id drawn label ids))
    unfolding apply create_relay_access_key granted
    issue-Refines id drawn label ids = Ensures-bind (validate_relay_key_label label) λ l _.
        Ensures-bind (valid_eligible_model_route_ids ids) λ route_ids _.
          Ensures-guard (all (λ id. is_some (route_of id s)) route_ids) _ λ _.
            let new = new_key hash_token env s id (key_secret drawn) l in
            Ensures-guard (not (any (clashes new) s.keys) && has_length l) _ λ free.
              Ensures-guard (not (any (in_scope id route_ids) s.eligibility)) _ λ _.
                Ensures-guard (not env.fail_config_commit) _ λ _.
                  let apart : any (clashes new) s.keys ≡ false = ground arith in
                  done (
                    λ x. rw (grants_lem s x) (grants_lem _ x ∙ issued s new apart refl x),
                    issued_unique s new apart unique,
                  )

    kept_id :
        (id label : Text) (o : Option AccessKey)
        → id_of (Option.map (λ k. if is_key id k then record k { label = label } else k) o)
          ≡ id_of o
    kept_id id label none = refl
    kept_id id label (some k) = ground arith

    -- An update that keeps the ids, the hashes and the revocations keeps the grants.
    edit-Refines :
        (id label : Text) (ids : List Text)
        → Ensures (Refines s (edit id label ids)) (apply env s (edit id label ids))
    unfolding apply update_relay_access_key granted opens
    edit-Refines id label ids = Ensures-bind (validate_relay_key_label label) λ l _.
        Ensures-bind (valid_eligible_model_route_ids ids) λ route_ids _.
          Ensures-guard (is_some (find_where (is_key id) s.keys)) _ λ key.
            Ensures-guard (all (λ id. is_some (route_of id s)) route_ids) _ λ routes.
              Ensures-guard (has_length l) _ λ _. Ensures-guard (not env.fail_config_commit) _ λ _.
                let rename = λ (k : AccessKey). record k { label = l } in
                done (
                  λ x. rw (grants_lem s x) (
                      grants_lem _ x
                      ∙ ap id_of
                          (find_where-update (opens x) (is_key id) rename (λ k e. refl) s.keys)
                      ∙ kept_id id l (find_where (opens x) s.keys)),
                  λ hash.
                      rw
                        (count_where-update (λ (k : AccessKey). text_eq k.secret_hash hash)
                          (is_key id) rename (λ k e. refl) s.keys)
                        (unique hash),
                )

    withdraw-Refines : (id : Text) → Ensures (Refines s (withdraw id)) (apply env s (withdraw id))
    unfolding apply revoke_relay_access_key granted
    withdraw-Refines id = Ensures-guard (count_where (is_key id) s.keys == 1) _ λ _. done (
      λ x. rw (grants_lem s x) (grants_lem _ x ∙ withdrawn env id x s.keys (unique (hash_token x))),
      λ hash.
          rw
            (count_where-update (λ (k : AccessKey). text_eq k.secret_hash hash) (is_key id)
              (revoke env) (λ k e. refl) s.keys)
            (unique hash),
    )

  -- The operations on relay access keys implement a map from secrets to keys. While the hashes of
  -- the keys are unique, an operation that succeeds keeps them unique and changes what
  -- authentication answers for a secret as it should: a new key answers for the secrets that hash
  -- as its own, a revoked key for none, and an edit changes no answer.
  pub apply-Refines :
      (env : Env) (s : Store) (op : KeyOp) (s' : Store)
      → HashesUnique s
      → apply env s op ≡ ok s'
      → Refines s op s'
  apply-Refines env s (issue id drawn label ids) s' unique e =
      ensured (issue-Refines env s unique id drawn label ids) s' e
  apply-Refines env s (edit id label ids) s' unique e =
      ensured (edit-Refines env s unique id label ids) s' e
  apply-Refines env s (withdraw id) s' unique e = ensured (withdraw-Refines env s unique id) s' e
