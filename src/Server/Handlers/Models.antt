-- ===== src/Server/Handlers/Models.antt =====
-- src/server.rs, `list_relay_models`: the models that a relay access key sees.
pub mod Names
pub mod Callable
use local_api_relay.Common.{ℕ, Bool, Option, List, [], ◌∷◌, map, keep}
use local_api_relay.Common.Int.{pos}
use local_api_relay.Common.Text.{Text, codes}
use local_api_relay.Store.{is_available}
use local_api_relay.Store.Routing.Listing.{EligibleModelRoute, eligible_model_route_health}
use local_api_relay.Store.Validation.{dedup}
use local_api_relay.Server.{AppState}
use local_api_relay.Server.Storage.{effective_health}
use local_api_relay.Server.Json.{Json, Items, nil, item, end, entry, string, array, object, number}
use local_api_relay.Server.Handlers.{Checked, passed, ◌>>=◌, require_relay_access_key}

abbrev pub is_up : AppState → EligibleModelRoute → Bool
is_up app route =
    is_available (effective_health app.route_health_override route.route_id route.health)

unfoldable pub listed_models : AppState → Text → List Text
unfolding dedup
listed_models app key_id = dedup (
    map (λ (route : EligibleModelRoute). route.model_name)
      (keep (is_up app) (eligible_model_route_health app.store key_id)))

abbrev pub model_object : Text → Json
model_object id = object (
    entry (codes "id") (string id) (
      entry (codes "object") (string (codes "model")) (
        entry (codes "created") (number (pos 0))
          (entry (codes "owned_by") (string (codes "local-api-relay")) end))))

abbrev pub model_objects : List Text → Items
model_objects [] = nil
model_objects (id ∷ ids) = item (model_object id) (model_objects ids)

abbrev pub model_list : List Text → Json
model_list names = object (
    entry (codes "object") (string (codes "list"))
      (entry (codes "data") (array (model_objects names)) end))

module _ (hash_token : Text → List ℕ) where
  -- The body of the answer with status 200, or the error.
  unfoldable pub list_relay_models : AppState → Option Text → Checked Json
  list_relay_models app authorization = do
    key_id ← require_relay_access_key hash_token app authorization
    passed (model_list (listed_models app key_id))
