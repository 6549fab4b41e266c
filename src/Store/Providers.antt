-- ===== src/Store/Providers.antt =====
-- src/store.rs: the upstream providers. A new id is an argument; the random generator draws it.
use local_api_relay.Common.{
  Bool, not, ◌&&◌, Option, some, List, [], ◌∷◌, ◌++◌, if◌then◌else◌, is_some, any, update_where,
}
use local_api_relay.Common.Text.{Text, text_eq}
use local_api_relay.Store.{
  Provider, ModelRoute, HealthRow, Store, Result, ok, ◌>>=◌, ◌>>◌, guard, ok_or, bail, sql, Env,
}
use local_api_relay.Store.Order.{sort_by}
use local_api_relay.Store.Health.{health_v14, health_of, reset_row}
use local_api_relay.Store.Routing.{◌>>?◌, only_if, provider_of}
use local_api_relay.Store.Validation.{
  Url, validate_display_name, validate_base_url, validate_api_key, has_length,
}
use local_api_relay.Store.Probes.{ProbeConfiguration, configuration, collect, by_route_id}

-- `fail_config_commit_if_requested`, the last step before a commit.
abbrev pub commit {ℓ} : {A : Type ℓ} → Env → A → Result A
commit env a =
    guard (not env.fail_config_commit) (bail "injected configuration commit failure") >> ok a

abbrev pub is_provider : Text → Provider → Bool
is_provider id u = text_eq u.id id

unfoldable pub create_provider :
    (Text → Option Url) → Env → Store → Text → Text → Text → Text → Result Store
unfolding validate_display_name validate_base_url validate_api_key
create_provider parse env s id display_name base_url api_key = do
  name ← validate_display_name display_name
  url ← validate_base_url parse base_url
  key ← validate_api_key api_key
  guard (not (is_some (provider_of id s)) && has_length name) sql
  commit env (record s {
    providers =
        s.providers ++ record { id = id; display_name = name; base_url = url; api_key = key } ∷ [];
  })

-- `provider_configuration`; its answer has the id, the name and the URL of the row.
unfoldable pub provider_configuration : Store → Text → Result Provider
provider_configuration s id = ok_or (provider_of id s) (bail "upstream provider does not exist")

-- The routes of a provider, as the probes that check them again.
unfoldable pub provider_probe : Store → Provider → ModelRoute → Option ProbeConfiguration
provider_probe s u r = only_if (text_eq r.provider_id u.id) >>? λ unit.
    health_of r.id s >>? λ h. some (configuration r u h.quarantine_epoch)

unfoldable pub provider_probes : Store → Provider → List ProbeConfiguration
unfolding provider_probe collect sort_by
provider_probes s u = sort_by by_route_id (collect (provider_probe s u) s.routes)

-- `model_route_id IN (SELECT id FROM model_routes WHERE upstream_provider_id = ?)`
abbrev pub of_provider : Store → Text → HealthRow → Bool
of_provider s id h =
    any (λ (r : ModelRoute). text_eq r.id h.route_id && text_eq r.provider_id id) s.routes

-- A connection that changed: the statement that lists the routes reads a column that exists from
-- schema 14 on.
unfoldable pub recheck_provider : Store → Provider → Result (Store × List ProbeConfiguration)
unfolding provider_probes
recheck_provider s u = do
  guard (health_v14 s) sql
  ok (
    record s { health = update_where (of_provider s u.id) (reset_row (health_v14 s)) s.health },
    provider_probes s u,
  )

abbrev pub same_connection : Provider → Provider → Bool
same_connection u v = text_eq u.base_url v.base_url && text_eq u.api_key v.api_key

unfoldable pub update_provider :
    (Text → Option Url)
    → Env
    → Store
    → Text
    → Text
    → Text
    → Text
    → Result (Store × List ProbeConfiguration)
unfolding validate_display_name validate_base_url validate_api_key recheck_provider
update_provider parse env s id display_name base_url api_key = do
  name ← validate_display_name display_name
  url ← validate_base_url parse base_url
  key ← validate_api_key api_key
  existing ← ok_or (provider_of id s) (bail "upstream provider does not exist")
  let new : Provider = record { id = id; display_name = name; base_url = url; api_key = key }
  guard (has_length name) sql
  let s' = record s { providers = update_where (is_provider id) (λ u. new) s.providers }
  result ← if same_connection existing new then ok (s', []) else recheck_provider s' new
  commit env result
