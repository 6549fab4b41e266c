-- ===== src/Store/Integrity/Config.antt =====
-- src/store.rs: each operation on the configuration that succeeds keeps the tables whole.
use local_api_relay.Common.{
  Bool, true, not, ◌&&◌, Option, List, [], leb, ◌==◌, is_some, ◌≡◌, refl, ◌∙◌, find_where,
  count_where, update_where, count_where-update, found-append, found-update, if◌then◌else◌,
}
use local_api_relay.Common.Text.{Text}
use local_api_relay.Store.{Provider, PublishedModel, HealthRow, Store, ok, ok_or, bail, Env}
use local_api_relay.Store.Ensures.{Ensures, done, Ensures-bind, Ensures-guard, Ensures-if, ensured}
use local_api_relay.Store.Health.{is_route, health_v14, reset_row}
use local_api_relay.Store.Routing.{model_of, provider_of}
use local_api_relay.Store.Validation.{
  Url, validate_display_name, validate_base_url, validate_api_key, validate_published_model_name,
  has_length,
}
use local_api_relay.Store.Probes.{ProbeConfiguration}
use local_api_relay.Store.Providers.{
  is_provider, of_provider, same_connection, create_provider, recheck_provider, update_provider,
}
use local_api_relay.Store.Models.{
  is_model, has_name, parse_prices, deprecate, price, create_published_model,
  deprecate_published_model, update_published_model_prices,
}
use local_api_relay.Store.Integrity.{IsWhole}
use local_api_relay.Store.Integrity.Routes.{text_eq-left}
use local_api_relay.Store.Integrity.Scopes.{kept-IsWhole}

pub health-IsWhole :
    (s : Store) (p : HealthRow → Bool) (f : HealthRow → HealthRow)
    → ((id : Text) (h : HealthRow) → is_route id (f h) ≡ is_route id h)
    → IsWhole s
    → IsWhole (record s { health = update_where p f s.health })
health-IsWhole s p f same =
    kept-IsWhole s s.settings s.providers s.models s.keys (update_where p f s.health) s.events
      (λ id h. h) (λ id h. h) (λ id h. h)
      (λ id. count_where-update (is_route id) p f (λ h e. same id h) s.health)

module _ (env : Env) where
  module _ (parse : Text → Option Url) (s : Store) (id name url key : Text)
      (whole : IsWhole s) where
    providers-IsWhole :
        (us : List Provider)
        → ((id : Text)
            → is_some (provider_of id s) ≡ true
            → is_some (find_where (is_provider id) us) ≡ true)
        → IsWhole (record s { providers = us })
    providers-IsWhole us keep =
        kept-IsWhole s s.settings us s.models s.keys s.health s.events keep (λ id h. h) (λ id h. h)
          (λ id. refl) whole

    pub create_provider-IsWhole : Ensures IsWhole (create_provider parse env s id name url key)
    unfolding create_provider
    create_provider-IsWhole = Ensures-bind (validate_display_name name) λ n _.
        Ensures-bind (validate_base_url parse url) λ u _. Ensures-bind (validate_api_key key) λ k _.
          Ensures-guard (not (is_some (provider_of id s)) && has_length n) _ λ _.
            Ensures-guard (not env.fail_config_commit) _
              λ _. done (providers-IsWhole _ (λ x h. found-append (is_provider x) s.providers _ h))

  recheck_provider-IsWhole :
      (s : Store) (u : Provider)
      → IsWhole s
      → Ensures (λ (p : Store × List ProbeConfiguration). IsWhole p.0) (recheck_provider s u)
  unfolding recheck_provider reset_row
  recheck_provider-IsWhole s u whole = Ensures-guard (health_v14 s) _ λ _.
      done (health-IsWhole s (of_provider s u.id) (reset_row (health_v14 s)) (λ id h. refl) whole)

  pub update_provider-IsWhole :
      (parse : Text → Option Url) (s : Store) (id name url key : Text)
      → IsWhole s
      → Ensures
          (λ (p : Store × List ProbeConfiguration). IsWhole p.0)
          (update_provider parse env s id name url key)
  unfolding update_provider
  update_provider-IsWhole parse s id name url key whole =
      Ensures-bind (validate_display_name name) λ n _.
        Ensures-bind (validate_base_url parse url) λ u _. Ensures-bind (validate_api_key key) λ k _.
          Ensures-bind (ok_or (provider_of id s) (bail "upstream provider does not exist")) λ old _.
            Ensures-guard (has_length n) _ λ _.
              let new : Provider = record {
                id = id;
                display_name = n;
                base_url = u;
                api_key = k;
              } in
              let s' = record s {
                providers = update_where (is_provider id) (λ u. new) s.providers;
              } in
              let whole' : IsWhole s' = providers-IsWhole parse s id name url key whole _ (λ x h.
                found-update (is_provider x) (is_provider id) (λ u. new)
                  (λ v same. text_eq-left v.id id x same) s.providers
                ∙ h) in
              let checked =
                Ensures-if (same_connection old new) (done whole')
                  (recheck_provider-IsWhole s' new whole') in
              Ensures-bind
                (if same_connection old new then ok (s', []) else recheck_provider s' new)
                λ result e.
                  Ensures-guard (not env.fail_config_commit) _ λ _. done (ensured checked result e)

  module _ (s : Store) (id : Text) (whole : IsWhole s) where
    models-IsWhole :
        (ms : List PublishedModel)
        → ((id : Text)
            → is_some (model_of id s) ≡ true
            → is_some (find_where (is_model id) ms) ≡ true)
        → IsWhole (record s { models = ms })
    models-IsWhole ms keep =
        kept-IsWhole s s.settings s.providers ms s.keys s.health s.events (λ id h. h) keep
          (λ id h. h) (λ id. refl) whole

    changed-IsWhole :
        (f : PublishedModel → PublishedModel)
        → ((x : Text) (p : PublishedModel) → is_model x (f p) ≡ is_model x p)
        → IsWhole (record s { models = update_where (is_model id) f s.models })
    changed-IsWhole f same =
        models-IsWhole _
          (λ x h. found-update (is_model x) (is_model id) f (λ p e. same x p) s.models ∙ h)

    pub create_published_model-IsWhole :
        (name input output cached : Text)
        → Ensures IsWhole (create_published_model env s name input output cached)
    unfolding create_published_model
    create_published_model-IsWhole name input output cached =
        Ensures-bind (validate_published_model_name name) λ n _.
          Ensures-bind (parse_prices input output cached) λ prices _.
            Ensures-guard (not (is_some (find_where (has_name n) s.models))) _ λ _.
              Ensures-guard (leb 16 s.schema && not (is_some (model_of n s))) _ λ _.
                Ensures-guard (not env.fail_config_commit) _
                  λ _. done (models-IsWhole _ (λ x h. found-append (is_model x) s.models _ h))

    pub deprecate_published_model-IsWhole : Ensures IsWhole (deprecate_published_model env s id)
    unfolding deprecate_published_model
    deprecate_published_model-IsWhole = Ensures-guard (leb 16 s.schema) _ λ _.
        Ensures-guard (count_where (is_model id) s.models == 1) _
          λ _. done (changed-IsWhole (deprecate env) (λ x p. refl))

    pub update_published_model_prices-IsWhole :
        (input output cached : Text)
        → Ensures IsWhole (update_published_model_prices env s id input output cached)
    unfolding update_published_model_prices
    update_published_model_prices-IsWhole input output cached =
        Ensures-bind (parse_prices input output cached) λ prices _.
          Ensures-guard (count_where (is_model id) s.models == 1) _ λ _.
            Ensures-guard (not env.fail_config_commit) _
              λ _. done (changed-IsWhole (price prices) (λ x p. refl))
