-- ===== src/Store/Integrity/Edits.antt =====
-- src/store.rs: the operations on routes and keys that succeed keep the tables whole.
use local_api_relay.Common.{
  true, not, ◌&&◌, Option, none, some, List, [], ◌∷◌, ◌++◌, ◌==◌, All-append, all, any, is_some,
  arith, ◌≡◌, refl, ◌∙◌, find_where, count_where, update_where, delete_where, found-append,
  found-update, All_imp,
}
use local_api_relay.Common.Text.{Text}
use local_api_relay.Store.{
  Provider, ModelRoute, AccessKey, StoreError, Store, ok, ok_or, bail, field, sql, Env,
}
use local_api_relay.Store.Ensures.{Ensures, done, Ensures-bind, Ensures-guard, Ensures-if}
use local_api_relay.Store.Decimal.{parse_positive_decimal}
use local_api_relay.Store.Health.{is_route, health_v14, health_of, reset_row}
use local_api_relay.Store.Routing.{route_of, model_of, provider_of}
use local_api_relay.Store.Validation.{
  validate_upstream_model_name, validate_protocol, validate_relay_key_label,
  valid_eligible_model_route_ids, has_length,
}
use local_api_relay.Store.Probes.{ProbeConfiguration}
use local_api_relay.Store.Routes.{
  Identity, route_identity_conflict, check_model, route_with, needs_check, edit_route,
  recheck_route, create_model_route, update_model_route,
}
use local_api_relay.Store.Keys.{
  is_key, of_key, in_scope, clashes, scope, key_secret, new_key, revoke, create_relay_access_key,
  update_relay_access_key, revoke_relay_access_key,
}
use local_api_relay.Store.Integrity.{HasScope, IsWhole}
use local_api_relay.Store.Integrity.Routes.{insert_route-IsWhole, edit_route-IsWhole}
use local_api_relay.Store.Integrity.Scopes.{
  kept-IsWhole, scoped-IsWhole, scope-HasScope, delete_where-All, key_added,
}
use local_api_relay.Store.Integrity.Config.{health-IsWhole}

ok_or_found :
    {A : Type 0} (o : Option A) (why : StoreError) (a : A) → ok_or o why ≡ ok a → is_some o ≡ true
ok_or_found none why a e = absurd (cc)
ok_or_found (some b) why a e = refl

check_model_found :
    (s : Store) (id : Text) → check_model s id ≡ ok tt → is_some (model_of id s) ≡ true
unfolding check_model
check_model_found s id e = ground arith

module _ (env : Env) where
  module _ (s : Store) (id model_id provider_id name protocol multiplier : Text)
      (whole : IsWhole s) where
    pub create_model_route-IsWhole :
        Ensures
          (λ (p : Store × ProbeConfiguration). IsWhole p.0)
          (create_model_route env s id model_id provider_id name protocol multiplier)
    unfolding create_model_route
    create_model_route-IsWhole = Ensures-bind (validate_upstream_model_name name) λ n _.
        Ensures-bind (validate_protocol protocol) λ p _.
          Ensures-bind (parse_positive_decimal multiplier "cost multiplier" "cost_multiplier")
            λ cost _.
              Ensures-bind
                (ok_or (provider_of provider_id s)
                  (field "provider_id" "selected upstream provider does not exist"))
                λ u found. Ensures-bind (check_model s model_id) λ unit checked.
                  let i : Identity = record {
                    published_model_id = model_id;
                    provider_id = provider_id;
                    upstream_model_name = n;
                    protocol = p;
                  } in
                  Ensures-guard (not (route_identity_conflict s i none)) _ λ free.
                    Ensures-guard
                      (not (is_some (route_of id s))
                        && not (is_some (health_of id s))
                        && has_length n)
                      _
                      λ fresh. Ensures-guard (not env.fail_config_commit) _ λ _. done (
                        insert_route-IsWhole s id i cost whole
                          (
                            ok_or_found (provider_of provider_id s) _ u found,
                            check_model_found s model_id checked,
                          )
                          (ground arith) (ground arith))

    recheck_route-IsWhole :
        (s : Store) (r : ModelRoute) (u : Provider)
        → IsWhole s
        → Ensures (λ (p : Store × Option ProbeConfiguration). IsWhole p.0) (recheck_route s r u)
    unfolding recheck_route reset_row
    recheck_route-IsWhole s r u w = Ensures-guard (health_v14 s) _ λ _.
        Ensures-bind (ok_or (health_of r.id s) sql)
          λ h _. done (health-IsWhole s (is_route r.id) (reset_row (health_v14 s)) (λ id h. refl) w)

    pub update_model_route-IsWhole :
        Ensures
          (λ (p : Store × Option ProbeConfiguration). IsWhole p.0)
          (update_model_route env s id model_id provider_id name protocol multiplier)
    unfolding update_model_route
    update_model_route-IsWhole = Ensures-bind (validate_upstream_model_name name) λ n _.
        Ensures-bind (validate_protocol protocol) λ p _.
          Ensures-bind (parse_positive_decimal multiplier "cost multiplier" "cost_multiplier")
            λ cost _.
              Ensures-bind
                (ok_or (provider_of provider_id s)
                  (field "provider_id" "selected upstream provider does not exist"))
                λ u found. Ensures-guard (is_some (model_of model_id s)) _ λ model.
                  Ensures-bind (ok_or (route_of id s) (bail "model route does not exist")) λ old _.
                    let i : Identity = record {
                      published_model_id = model_id;
                      provider_id = provider_id;
                      upstream_model_name = n;
                      protocol = p;
                    } in
                    Ensures-guard (not (route_identity_conflict s i (some id))) _ λ free.
                      Ensures-guard (has_length n) _ λ _.
                        Ensures-guard (not env.fail_config_commit) _ λ _.
                          let whole' : IsWhole (edit_route s (route_with id i cost)) =
                            edit_route-IsWhole s id i cost whole
                              (ok_or_found (provider_of provider_id s) _ u found, model)
                              (ground arith) in
                          Ensures-if (needs_check old i)
                            (recheck_route-IsWhole (edit_route s (route_with id i cost))
                              (route_with id i cost) u whole')
                            (done whole')

  module _ (s : Store) (id : Text) (whole : IsWhole s) where
    pub create_relay_access_key-IsWhole :
        (hash_token : Text → Text) (drawn label : Text) (ids : List Text)
        → Ensures IsWhole (create_relay_access_key hash_token env s id drawn label ids)
    unfolding create_relay_access_key
    create_relay_access_key-IsWhole hash_token drawn label ids =
        Ensures-bind (validate_relay_key_label label) λ l _.
          Ensures-bind (valid_eligible_model_route_ids ids) λ route_ids _.
            Ensures-guard (all (λ id. is_some (route_of id s)) route_ids) _ λ routes.
              let key = new_key hash_token env s id (key_secret drawn) l in
              Ensures-guard (not (any (clashes key) s.keys) && has_length l) _ λ _.
                Ensures-guard (not (any (in_scope id route_ids) s.eligibility)) _ λ _.
                  Ensures-guard (not env.fail_config_commit) _ λ _.
                    let s' = record s {
                      keys = s.keys ++ key ∷ [];
                      eligibility = s.eligibility ++ scope id route_ids;
                    } in
                    done (
                      scoped-IsWhole s (s.keys ++ key ∷ []) (s.eligibility ++ scope id route_ids)
                        (All-append (HasScope s') s.eligibility (scope id route_ids)
                          (All_imp
                            (λ e h. (found-append (is_key e.key_id) s.keys (key ∷ []) h.0, h.1))
                            s.eligibility whole.scopes)
                          (scope-HasScope s' id route_ids (key_added s.keys key) routes))
                        whole)

    pub update_relay_access_key-IsWhole :
        (label : Text) (ids : List Text)
        → Ensures IsWhole (update_relay_access_key env s id label ids)
    unfolding update_relay_access_key
    update_relay_access_key-IsWhole label ids = Ensures-bind (validate_relay_key_label label) λ l _.
        Ensures-bind (valid_eligible_model_route_ids ids) λ route_ids _.
          Ensures-guard (is_some (find_where (is_key id) s.keys)) _ λ key.
            Ensures-guard (all (λ id. is_some (route_of id s)) route_ids) _ λ routes.
              Ensures-guard (has_length l) _ λ _. Ensures-guard (not env.fail_config_commit) _ λ _.
                let rename = λ (k : AccessKey). record k { label = l } in
                let keys = update_where (is_key id) rename s.keys in
                let rows = delete_where (of_key id) s.eligibility ++ scope id route_ids in
                let s' = record s { keys = keys; eligibility = rows } in
                let found =
                  λ (x : Text). found-update (is_key x) (is_key id) rename (λ k e. refl) s.keys in
                done (
                  scoped-IsWhole s keys rows
                    (All-append (HasScope s') (delete_where (of_key id) s.eligibility)
                      (scope id route_ids)
                      (delete_where-All (HasScope s') (of_key id) s.eligibility
                        (All_imp (λ e h. (found e.key_id ∙ h.0, h.1)) s.eligibility whole.scopes))
                      (scope-HasScope s' id route_ids (found id ∙ key) routes))
                    whole)

    pub revoke_relay_access_key-IsWhole : Ensures IsWhole (revoke_relay_access_key env s id)
    unfolding revoke_relay_access_key
    revoke_relay_access_key-IsWhole = Ensures-guard (count_where (is_key id) s.keys == 1) _ λ _.
        done (
          kept-IsWhole s s.settings s.providers s.models
            (update_where (is_key id) (revoke env) s.keys) s.health s.events (λ id h. h) (λ id h. h)
            (λ x h. found-update (is_key x) (is_key id) (revoke env) (λ k e. refl) s.keys ∙ h)
            (λ id. refl) whole)
