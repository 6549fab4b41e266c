-- ===== src/Store/Keys.antt =====
-- src/store.rs: the relay access keys and the routes that each may use. A new id and secret are
-- arguments; the random generator draws them. The SHA-256 of a secret is `hash_token`.
use local_api_relay.Common.{
  ℕ, zero, suc, Bool, not, ◌&&◌, ◌||◌, none, some, List, [], ◌∷◌, ◌++◌, leb, ◌==◌, if◌then◌else◌,
  is_some, all, any, map, update_where, delete_where, count_where, find_where,
}
use local_api_relay.Common.Text.{Text, codes, text_eq}
use local_api_relay.Store.{
  AccessKey, Eligibility, Store, Result, ok, ◌>>=◌, ◌>>◌, guard, bail, field, sql, Env,
}
use local_api_relay.Store.Routing.{route_of}
use local_api_relay.Store.Validation.{
  validate_relay_key_label, valid_eligible_model_route_ids, has_length,
}
use local_api_relay.Store.Providers.{commit}

abbrev pub is_key : Text → AccessKey → Bool
is_key id k = text_eq k.id id

abbrev pub scope : Text → List Text → List Eligibility
scope key_id = map (λ route_id. record { key_id = key_id; route_id = route_id })

abbrev pub of_key : Text → Eligibility → Bool
of_key key_id e = text_eq e.key_id key_id

-- The primary key of `relay_key_route_eligibility` is the pair of the two ids.
abbrev pub in_scope : Text → List Text → Eligibility → Bool
in_scope key_id route_ids e = of_key key_id e && any (text_eq e.route_id) route_ids

-- The loop that looks each route up.
abbrev pub check_routes : Store → List Text → Result (Unit {0})
check_routes s ids =
    guard (all (λ id. is_some (route_of id s)) ids)
      (field "model_route_ids" "selected eligible model route does not exist")

-- `&secret[..12]`; the secret is ASCII.
unfoldable pub prefix : ℕ → Text → Text
prefix zero s = []
prefix (suc n) [] = []
prefix (suc n) (c ∷ s) = c ∷ prefix n s

-- `format!("lar_{}", …)`
abbrev pub key_secret : Text → Text
key_secret drawn = codes "lar_" ++ drawn

-- The columns `id`, `secret_prefix` and `secret_hash` are unique.
abbrev pub clashes : AccessKey → AccessKey → Bool
clashes new k =
    text_eq k.id new.id
    || text_eq k.secret_prefix new.secret_prefix
    || text_eq k.secret_hash new.secret_hash

module _ (hash_token : Text → Text) where
  abbrev pub new_key : Env → Store → Text → Text → Text → AccessKey
  new_key env s id secret label = record {
    id = id;
    secret_prefix = prefix 12 secret;
    secret_hash = hash_token secret;
    label = label;
    created_at = env.epoch_seconds;
    revoked_at = none;
    secret = if leb 17 s.schema then some secret else none;
  }

  -- The answer is the key with its secret; the caller shows it once.
  unfoldable pub create_relay_access_key :
      Env → Store → Text → Text → Text → List Text → Result Store
  unfolding validate_relay_key_label valid_eligible_model_route_ids prefix
  create_relay_access_key env s id drawn label model_route_ids = do
    key_label ← validate_relay_key_label label
    route_ids ← valid_eligible_model_route_ids model_route_ids
    check_routes s route_ids
    let key = new_key env s id (key_secret drawn) key_label
    guard (not (any (clashes key) s.keys) && has_length key_label) sql
    guard (not (any (in_scope id route_ids) s.eligibility)) sql
    commit env
        (record s { keys = s.keys ++ key ∷ []; eligibility = s.eligibility ++ scope id route_ids })

unfoldable pub update_relay_access_key : Env → Store → Text → Text → List Text → Result Store
unfolding validate_relay_key_label valid_eligible_model_route_ids
update_relay_access_key env s id label model_route_ids = do
  key_label ← validate_relay_key_label label
  route_ids ← valid_eligible_model_route_ids model_route_ids
  guard (is_some (find_where (is_key id) s.keys)) (bail "relay access key does not exist")
  check_routes s route_ids
  guard (has_length key_label) sql
  commit env (record s {
    keys = update_where (is_key id) (λ k. record k { label = key_label }) s.keys;
    eligibility = delete_where (of_key id) s.eligibility ++ scope id route_ids;
  })

-- `COALESCE(revoked_at, ?1)`
abbrev pub revoke : Env → AccessKey → AccessKey
revoke env k = record k {
  revoked_at = if is_some k.revoked_at then k.revoked_at else some env.epoch_seconds;
}

unfoldable pub revoke_relay_access_key : Env → Store → Text → Result Store
revoke_relay_access_key env s id = do
  guard (count_where (is_key id) s.keys == 1) (bail "relay access key does not exist")
  ok (record s { keys = update_where (is_key id) (revoke env) s.keys })
