-- ===== src/Store/Routes.antt =====
-- src/store.rs: the model routes. A new id is an argument; the random generator draws it.
use local_api_relay.Common.{
  String, Bool, true, not, ◌&&◌, Option, none, some, [], ◌∷◌, ◌++◌, leb, ltb, if◌then◌else◌,
  is_some, update_where, count_where,
}
use local_api_relay.Common.Int.{ℤ}
use local_api_relay.Common.Text.{Text, text_eq}
use local_api_relay.Store.{
  StreamProtocol, protocol_eq, checking, Provider, ModelRoute, HealthRow, Store, Result, ok, ◌>>=◌,
  ◌>>◌, guard, ok_or, bail, field, sql, Env,
}
use local_api_relay.Store.Decimal.{parse_positive_decimal}
use local_api_relay.Store.Health.{is_route, health_v14, health_of, reset_row}
use local_api_relay.Store.Routing.{route_of, model_of, provider_of}
use local_api_relay.Store.Validation.{validate_upstream_model_name, validate_protocol, has_length}
use local_api_relay.Store.Probes.{ProbeConfiguration, configuration}
use local_api_relay.Store.Providers.{commit}

abbrev pub has_id : Text → ModelRoute → Bool
has_id id r = text_eq r.id id

-- What makes a route: the two ends, the upstream's model and the protocol.
pub record Identity : Type 0 where
  pub published_model_id : Text
  pub provider_id : Text
  pub upstream_model_name : Text
  pub protocol : StreamProtocol

abbrev pub has_identity : Identity → ModelRoute → Bool
has_identity i r =
    text_eq r.published_model_id i.published_model_id
    && text_eq r.provider_id i.provider_id
    && text_eq r.upstream_model_name i.upstream_model_name
    && protocol_eq r.protocol i.protocol

-- `?5 IS NULL OR id != ?5`
abbrev pub not_excluded : Option Text → ModelRoute → Bool
not_excluded none r = true
not_excluded (some id) r = not (text_eq r.id id)

unfoldable pub route_identity_conflict : Store → Identity → Option Text → Bool
route_identity_conflict s i excluded =
    ltb 0 (count_where (λ r. has_identity i r && not_excluded excluded r) s.routes)

abbrev pub duplicate_route_identity_message : String
duplicate_route_identity_message =
    "a model route with this published model, provider, upstream model, and protocol already exists"

-- The checks of a new route's model: from schema 16 on it must not be deprecated.
unfoldable pub check_model : Store → Text → Result (Unit {0})
check_model s id = do
  model ←
      ok_or (model_of id s) (field "published_model_id" "selected published model does not exist")
  guard (not (leb 16 s.schema && is_some model.deprecated_at))
      (field "published_model_id" "selected published model is deprecated; choose an active model")

abbrev pub route_with : Text → Identity → ℤ → ModelRoute
route_with id i multiplier = record {
  id = id;
  published_model_id = i.published_model_id;
  provider_id = i.provider_id;
  upstream_model_name = i.upstream_model_name;
  protocol = i.protocol;
  cost_multiplier = multiplier;
}

-- The row of a new route's health, with the defaults of the other columns.
abbrev pub new_health : Text → HealthRow
new_health id = record {
  route_id = id;
  state = checking;
  checked_at = none;
  failure_category = none;
  failed_probe_count = 0;
  next_probe_at_ms = none;
  last_http_status = none;
  quarantine_epoch = 0;
  consecutive_failures = 0;
}

unfoldable pub insert_route : Store → ModelRoute → Store
insert_route s r = record s {
  routes = s.routes ++ r ∷ [];
  health = s.health ++ new_health r.id ∷ [];
}

unfoldable pub create_model_route :
    Env → Store → Text → Text → Text → Text → Text → Text → Result (Store × ProbeConfiguration)
unfolding validate_upstream_model_name validate_protocol parse_positive_decimal check_model
    insert_route route_identity_conflict
create_model_route env s id model_id provider_id upstream_model_name protocol multiplier = do
  upstream_name ← validate_upstream_model_name upstream_model_name
  route_protocol ← validate_protocol protocol
  cost ← parse_positive_decimal multiplier "cost multiplier" "cost_multiplier"
  provider ←
      ok_or (provider_of provider_id s)
        (field "provider_id" "selected upstream provider does not exist")
  check_model s model_id
  let identity : Identity = record {
    published_model_id = model_id;
    provider_id = provider_id;
    upstream_model_name = upstream_name;
    protocol = route_protocol;
  }
  guard (not (route_identity_conflict s identity none)) (bail duplicate_route_identity_message)
  guard
      (not (is_some (route_of id s)) && not (is_some (health_of id s)) && has_length upstream_name)
      sql
  let route = route_with id identity cost
  commit env (insert_route s route, configuration route provider 0)

-- Whether an edited route has to be checked again.
abbrev pub needs_check : ModelRoute → Identity → Bool
needs_check r i = not (
    text_eq r.provider_id i.provider_id
    && text_eq r.upstream_model_name i.upstream_model_name
    && protocol_eq r.protocol i.protocol)

-- The reset of the edited route, and its probe. The last query reads a column that exists from
-- schema 14 on.
unfoldable pub recheck_route :
    Store → ModelRoute → Provider → Result (Store × Option ProbeConfiguration)
recheck_route s r provider = do
  guard (health_v14 s) sql
  h ← ok_or (health_of r.id s) sql
  ok (
    record s { health = update_where (is_route r.id) (reset_row (health_v14 s)) s.health },
    some (configuration r provider h.quarantine_epoch),
  )

abbrev pub edit_route : Store → ModelRoute → Store
edit_route s r = record s { routes = update_where (has_id r.id) (λ old. r) s.routes }

unfoldable pub update_model_route :
    Env
    → Store
    → Text
    → Text
    → Text
    → Text
    → Text
    → Text
    → Result (Store × Option ProbeConfiguration)
unfolding validate_upstream_model_name validate_protocol parse_positive_decimal recheck_route
    route_identity_conflict
update_model_route env s id model_id provider_id upstream_model_name protocol multiplier = do
  upstream_name ← validate_upstream_model_name upstream_model_name
  route_protocol ← validate_protocol protocol
  cost ← parse_positive_decimal multiplier "cost multiplier" "cost_multiplier"
  provider ←
      ok_or (provider_of provider_id s)
        (field "provider_id" "selected upstream provider does not exist")
  guard (is_some (model_of model_id s))
      (field "published_model_id" "selected published model does not exist")
  existing ← ok_or (route_of id s) (bail "model route does not exist")
  let identity : Identity = record {
    published_model_id = model_id;
    provider_id = provider_id;
    upstream_model_name = upstream_name;
    protocol = route_protocol;
  }
  guard (not (route_identity_conflict s identity (some id))) (bail duplicate_route_identity_message)
  guard (has_length upstream_name) sql
  let route = route_with id identity cost
  let s' = edit_route s route
  guard (not env.fail_config_commit) (bail "injected configuration commit failure")
  if needs_check existing identity then recheck_route s' route provider else ok (s', none)
