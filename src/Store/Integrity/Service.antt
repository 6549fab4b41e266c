-- ===== src/Store/Integrity/Service.antt =====
-- src/store.rs: in a whole database the query for the candidates and the test for an eligible route
-- agree.
use local_api_relay.Common.{
  Bool, true, ◌&&◌, some, List, [], ◌∷◌, length, length-map, is_some, arith, ◌≡◌, refl, ◌∙◌,
  count_where, find_where-All, count_where_pos, count_where-none, any_count, Option-cases, inl, inr,
  ltb,
}
use local_api_relay.Common.Text.{Text, text_eq, text_eq_refl}
use local_api_relay.Store.{StreamProtocol, ModelRoute, Eligibility, Store}
use local_api_relay.Store.Health.{is_route, health_of}
use local_api_relay.Store.Order.{sort_by, length-sort_by}
use local_api_relay.Store.Routing.{
  Row, row_after, route_of, joined_row, join, eligible_rows, eligible_routes, configured_row,
  has_eligible_route,
}
use local_api_relay.Store.Routes.{has_id}
use local_api_relay.Store.Integrity.{HasEnds, IsWhole}

-- A row of the eligibility table that lets the key use a route for the call.
abbrev pub permits : Store → Text → Text → StreamProtocol → Eligibility → Bool
permits s key name protocol e =
    text_eq e.key_id key && configured_row s name protocol (route_of e.route_id s)

module _ (s : Store) (whole : IsWhole s) (key name : Text) (protocol : StreamProtocol) where
  has_health :
      (id : Text) (r : ModelRoute) → route_of id s ≡ some r → is_some (health_of r.id s) ≡ true
  unfolding health_of
  has_health id r found = elim (Option-cases (health_of r.id s)) [
    | inl absent ↦ absurd (
        omega (
          arith,
          whole.one_health r.id,
          count_where-none (is_route r.id) s.health absent,
          count_where_pos (has_id r.id) (λ (r : ModelRoute). text_eq r.id id) s.routes r found
              (text_eq_refl r.id),
        ))
    | inr (h, e) ↦ rw e
  ]

  ends_of : (id : Text) (r : ModelRoute) → route_of id s ≡ some r → HasEnds s r
  ends_of id r found =
      find_where-All (HasEnds s) (λ (r : ModelRoute). text_eq r.id id) s.routes r whole.ends found

  joined :
      (e : Eligibility) → is_some (joined_row s key name protocol e) ≡ permits s key name protocol e
  unfolding joined_row
  joined e = elim (Option-cases (route_of e.route_id s)) [
    | inl absent ↦ rw absent (ground arith)
    | inr (r, found) ↦
        let healthy : is_some (health_of r.id s) ≡ true = has_health e.route_id r found in
        let (provider, model) = ends_of e.route_id r found in rw found (ground arith)
  ]

  length-join :
      (es : List Eligibility)
      → length (join s key name protocol es) ≡ count_where (permits s key name protocol) es
  unfolding join count_where
  length-join [] = refl
  length-join (e ∷ es) = ground (arith, joined e, length-join es)

  -- In a whole database the query for the candidates loses none: a call has as many candidates as
  -- there are rows of the eligibility table with its key whose route has its model and protocol,
  -- which are the rows that `has_eligible_chat_route` and `has_eligible_responses_route` look for.
  pub length-eligible_routes :
      length (eligible_routes s key name protocol)
      ≡ count_where (permits s key name protocol) s.eligibility
  unfolding eligible_routes eligible_rows
  length-eligible_routes =
      length-map (λ (row : Row). row.1) (sort_by row_after (join s key name protocol s.eligibility))
      ∙ length-sort_by row_after (join s key name protocol s.eligibility)
      ∙ length-join s.eligibility

  pub has_eligible_route_lem :
      has_eligible_route s key name protocol ≡ ltb 0 (length (eligible_routes s key name protocol))
  unfolding has_eligible_route
  has_eligible_route_lem =
      rw length-eligible_routes (any_count (permits s key name protocol) s.eligibility)
