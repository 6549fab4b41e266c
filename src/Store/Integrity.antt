-- ===== src/Store/Integrity.antt =====
-- src/store.rs: the operations that change the configuration, as one history, and what the tables of
-- the configuration keep between them.
pub mod Routes
pub mod Scopes
pub mod Config
pub mod Health
pub mod Edits
pub mod History
pub mod Service
use local_api_relay.Common.{
  ℕ, ◌≤◌, Bool, true, Option, List, [], ◌∷◌, All, is_some, find_where, count_where, ◌≡◌,
}
use local_api_relay.Common.Text.{Text}
use local_api_relay.Store.{ModelRoute, Eligibility, Store, Result, ok, err, ◌>>=◌, Env}
use local_api_relay.Store.Health.{is_route}
use local_api_relay.Store.Routing.{route_of, model_of, provider_of}
use local_api_relay.Store.Routes.{has_id, Identity, has_identity}
use local_api_relay.Store.Keys.{is_key}

-- The provider and the published model of a route are there.
abbrev pub HasEnds : Store → ModelRoute → Type 0
HasEnds s r =
    (is_some (provider_of r.provider_id s) ≡ true)
    × (is_some (model_of r.published_model_id s) ≡ true)

-- The key and the route of a row of the eligibility table are there.
abbrev pub HasScope : Store → Eligibility → Type 0
HasScope s e =
    (is_some (find_where (is_key e.key_id) s.keys) ≡ true)
    × (is_some (route_of e.route_id s) ≡ true)

-- No two routes share an id or an identity, each has one row of health and each row of health a
-- route, and no row refers to one that is not there.
pub record IsWhole (s : Store) : Type 0 where
  pub one_id : (id : Text) → count_where (has_id id) s.routes ≤ 1
  pub one_identity : (i : Identity) → count_where (has_identity i) s.routes ≤ 1
  pub one_health :
      (id : Text) → count_where (is_route id) s.health ≡ count_where (has_id id) s.routes
  pub ends : All (HasEnds s) s.routes
  pub scopes : All (HasScope s) s.eligibility
