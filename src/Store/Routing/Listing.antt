-- ===== src/Store/Routing/Listing.antt =====
-- src/store.rs, `eligible_model_route_health`: the routes of a key, with the names of their models.
use local_api_relay.Common.{Bool, not, ◌&&◌, ◌||◌, Option, some, List, [], ◌∷◌}
use local_api_relay.Common.Text.{Text, text_eq}
use local_api_relay.Store.{RouteHealth, Eligibility, Store}
use local_api_relay.Store.Health.{health_of}
use local_api_relay.Store.Order.{text_ltb, sort_by}
use local_api_relay.Store.Routing.{◌>>?◌, only_if, route_of, model_of, cons_some}

pub record EligibleModelRoute : Type 0 where
  pub model_name : Text
  pub route_id : Text
  pub health : RouteHealth

-- The row that one row of `relay_key_route_eligibility` gives, if any.
unfoldable pub listed_row : Store → Text → Eligibility → Option EligibleModelRoute
listed_row s key_id e = only_if (text_eq e.key_id key_id) >>? λ unit. route_of e.route_id s >>? λ r.
    health_of r.id s >>? λ h. model_of r.published_model_id s >>? λ p.
    some (record { model_name = p.name; route_id = r.id; health = h.state })

unfoldable pub listed_rows : Store → Text → List Eligibility → List EligibleModelRoute
listed_rows s key_id [] = []
listed_rows s key_id (e ∷ es) = cons_some (listed_row s key_id e) (listed_rows s key_id es)

-- `ORDER BY p.name, r.id`: whether a row comes after another.
unfoldable pub listed_after : EligibleModelRoute → EligibleModelRoute → Bool
listed_after a b =
    text_ltb b.model_name a.model_name
    || (not (text_ltb a.model_name b.model_name) && text_ltb b.route_id a.route_id)

unfoldable pub eligible_model_route_health : Store → Text → List EligibleModelRoute
unfolding sort_by
eligible_model_route_health s key_id = sort_by listed_after (listed_rows s key_id s.eligibility)
