-- ===== src/Store/Routing.antt =====
-- src/store.rs: the queries for the routes that may serve a call. Each table that a query joins by its
-- primary key is looked up by that key.
pub mod Candidates
pub mod Listing
use local_api_relay.Common.{
  ℕ, Bool, true, false, not, ◌&&◌, ◌||◌, Option, none, some, List, [], ◌∷◌, map, ltb, ◌==◌,
  if◌then◌else◌, find_where, any,
}
use local_api_relay.Common.Int.{ℤ, ltb_ℤ}
use local_api_relay.Common.Text.{Text, text_eq}
use local_api_relay.Store.{
  StreamProtocol, protocol_eq, Provider, PublishedModel, ModelRoute, HealthRow, Eligibility,
  ModelRouteCandidate, Store,
}
use local_api_relay.Store.Health.{health_of}
use local_api_relay.Store.Order.{text_ltb, sort_by}

-- `ORDER BY r.cost_multiplier_micros ASC, r.id ASC`: whether a row comes after another.
unfoldable pub comes_after : ModelRoute → ModelRoute → Bool
comes_after a b =
    ltb_ℤ b.cost_multiplier a.cost_multiplier
    || (not (ltb_ℤ a.cost_multiplier b.cost_multiplier) && text_ltb b.id a.id)

abbrev pub Row : Type 0
Row = ModelRoute × ModelRouteCandidate

abbrev pub row_after : Row → Row → Bool
row_after a b = comes_after a.0 b.0

infixl 5 ◌>>?◌
abbrev pub ◌>>?◌ {ℓ κ} : {A : Type ℓ} {B : Type κ} → Option A → (A → Option B) → Option B
none >>? f = none
some a >>? f = f a

abbrev pub only_if : Bool → Option (Unit {0})
only_if true = some tt
only_if false = none

abbrev pub route_of : Text → Store → Option ModelRoute
route_of id s = find_where (λ (r : ModelRoute). text_eq r.id id) s.routes

abbrev pub model_of : Text → Store → Option PublishedModel
model_of id s = find_where (λ (p : PublishedModel). text_eq p.id id) s.models

abbrev pub provider_of : Text → Store → Option Provider
provider_of id s = find_where (λ (u : Provider). text_eq u.id id) s.providers

-- What a route of the key has to be, for the call's model and protocol.
abbrev pub serves : Text → StreamProtocol → PublishedModel → ModelRoute → Bool
serves name protocol p r = text_eq p.name name && protocol_eq r.protocol protocol

-- The row that one row of `relay_key_route_eligibility` gives, if any.
unfoldable pub joined_row : Store → Text → Text → StreamProtocol → Eligibility → Option Row
joined_row s key_id name protocol e = only_if (text_eq e.key_id key_id) >>? λ unit.
    route_of e.route_id s >>? λ r. health_of r.id s >>? λ h.
    model_of r.published_model_id s >>? λ p. provider_of r.provider_id s >>? λ u.
    only_if (serves name protocol p r) >>? λ unit. some (
      r,
      record {
        route_id = r.id;
        provider_id = u.id;
        provider_name = u.display_name;
        base_url = u.base_url;
        api_key = u.api_key;
        upstream_model_name = r.upstream_model_name;
        health = h.state;
      },
    )

abbrev pub cons_some : {A : Type 0} → Option A → List A → List A
cons_some none xs = xs
cons_some (some x) xs = x ∷ xs

unfoldable pub join : Store → Text → Text → StreamProtocol → List Eligibility → List Row
join s key_id name protocol [] = []
join s key_id name protocol (e ∷ es) =
    cons_some (joined_row s key_id name protocol e) (join s key_id name protocol es)

-- `eligible_chat_routes` and `eligible_responses_routes`, with their protocol.
unfoldable pub eligible_rows : Store → Text → Text → StreamProtocol → List Row
unfolding sort_by
eligible_rows s key_id name protocol = sort_by row_after (join s key_id name protocol s.eligibility)

unfoldable pub eligible_routes : Store → Text → Text → StreamProtocol → List ModelRouteCandidate
eligible_routes s key_id name protocol =
    map (λ (row : Row). row.1) (eligible_rows s key_id name protocol)

-- One row of the join of `has_eligible_chat_route` and `has_eligible_responses_route`.
abbrev pub configured_row : Store → Text → StreamProtocol → Option ModelRoute → Bool
configured_row s name protocol none = false
configured_row s name protocol (some r) = elim (model_of r.published_model_id s) [
  | none ↦ false
  | some p ↦ serves name protocol p r
]

unfoldable pub has_eligible_route : Store → Text → Text → StreamProtocol → Bool
has_eligible_route s key_id name protocol =
    any
      (λ (e : Eligibility).
        text_eq e.key_id key_id && configured_row s name protocol (route_of e.route_id s))
      s.eligibility
