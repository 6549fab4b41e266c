-- ===== src/Server/Handlers/Models/Callable.antt =====
-- src/server.rs: the models that a key sees are those that it can call.
use local_api_relay.Common.{
  ℕ, Bool, true, false, ◌&&◌, ◌||◌, Option, List, [], ◌∷◌, map, keep, any, arith, ◌≡◌, refl, ◌∙◌,
  Option-cases, inl, inr, find_where-All, any_count, any-map, ap, sym, ltb,
}
use local_api_relay.Common.Text.{Text, text_eq, text_eq_comm}
use local_api_relay.Store.{
  StreamProtocol, chat_completions, responses, protocol_eq, is_available, ModelRoute,
  ModelRouteCandidate, Eligibility,
}
use local_api_relay.Store.Integrity.{HasEnds, IsWhole}
use local_api_relay.Store.Routing.{
  Row, eligible_rows, eligible_routes, join, joined_row, route_of, model_of,
}
use local_api_relay.Store.Routing.Candidates.{count-eligible_rows}
use local_api_relay.Store.Routing.Listing.{
  EligibleModelRoute, listed_row, listed_rows, eligible_model_route_health,
}
use local_api_relay.Server.{AppState}
use local_api_relay.Server.Storage.{effective_health}
use local_api_relay.Server.Protocol.{some_and}
use local_api_relay.Server.Handlers.{
  Checked, passed, denied, effective_candidates, choose, require_relay_access_key,
}
use local_api_relay.Server.Handlers.Models.{is_up, listed_models, model_list, list_relay_models}
use local_api_relay.Server.Handlers.Models.Names.{is_ascending, name_of, names-ascending, any-names}

abbrev does_pass {ℓ} : {A : Type ℓ} → Checked A → Bool
does_pass (passed a) = true
does_pass (denied e) = false

-- Whether a call of the key for the model finds candidates.
abbrev pub can_call : AppState → Text → Text → StreamProtocol → Bool
can_call app key_id name protocol = does_pass (choose app key_id name protocol)

either_protocol :
    (p : StreamProtocol) → (protocol_eq p chat_completions || protocol_eq p responses) ≡ true
either_protocol chat_completions = refl
either_protocol responses = refl

abbrev holds_some {ℓ} : {A : Type ℓ} → List A → Bool
holds_some [] = false
holds_some (x ∷ xs) = true

holds-keep : {A : Type 0} (p : A → Bool) (xs : List A) → holds_some (keep p xs) ≡ any p xs
holds-keep p [] = refl
holds-keep p (x ∷ xs) = ground (arith, holds-keep p xs)

any_or :
    {A : Type 0} (p q r : A → Bool)
    → ((x : A) → p x ≡ (q x || r x))
    → (xs : List A) → any p xs ≡ (any q xs || any r xs)
any_or p q r same [] = refl
any_or p q r same (x ∷ xs) = ground (arith, same x, any_or p q r same xs)

module _ (app : AppState) (key_id name : Text) where
  abbrev serving : ModelRouteCandidate → Bool
  serving c = is_available (effective_health app.route_health_override c.route_id c.health)

  abbrev serves_now : Row → Bool
  serves_now row = serving row.1

  abbrev offers : EligibleModelRoute → Bool
  offers route = is_up app route && text_eq name (name_of route)

  any-listed_rows :
      (es : List Eligibility)
      → any offers (listed_rows app.store key_id es)
        ≡ any (λ e. some_and (listed_row app.store key_id e) offers) es
  unfolding listed_rows
  any-listed_rows [] = refl
  any-listed_rows (e ∷ es) = ground (arith, any-listed_rows es)

  module _ (protocol : StreamProtocol) where
    any-join :
        (es : List Eligibility)
        → any serves_now (join app.store key_id name protocol es)
          ≡ any (λ e. some_and (joined_row app.store key_id name protocol e) serves_now) es
    unfolding join
    any-join [] = refl
    any-join (e ∷ es) = ground (arith, any-join es)

    passes_some :
        can_call app key_id name protocol
        ≡ holds_some (effective_candidates app (eligible_routes app.store key_id name protocol))
    unfolding choose
    passes_some = ground arith

    can_call_lem :
        can_call app key_id name protocol
        ≡ any
            (λ e. some_and (joined_row app.store key_id name protocol e) serves_now)
            app.store.eligibility
    unfolding effective_candidates eligible_routes
    can_call_lem =
        let rows = eligible_rows app.store key_id name protocol in
        let joined = join app.store key_id name protocol app.store.eligibility in
        let counted = count-eligible_rows app.store key_id name protocol serves_now in
        passes_some
        ∙ holds-keep serving (map (λ (row : Row). row.1) rows)
        ∙ any-map serving (λ (row : Row). row.1) rows
        ∙ any_count serves_now rows
        ∙ ap (ltb 0) counted
        ∙ sym (any_count serves_now joined)
        ∙ any-join app.store.eligibility

  module _ (whole : IsWhole app.store) where
    offered :
        (e : Eligibility)
        → some_and (listed_row app.store key_id e) offers ≡ (
            some_and (joined_row app.store key_id name chat_completions e) serves_now
            || some_and (joined_row app.store key_id name responses e) serves_now)
    unfolding listed_row joined_row
    offered e = elim (Option-cases (route_of e.route_id app.store)) [
      | inl absent ↦ rw absent (ground arith)
      | inr (r, found) ↦
          let (provider, model) =
            find_where-All (HasEnds app.store) (λ (r : ModelRoute). text_eq r.id e.route_id)
              app.store.routes r whole.ends found in
          elim (Option-cases (model_of r.published_model_id app.store)) [
            | inl absent ↦ rw found (rw absent (ground arith))
            | inr (p, is_p) ↦
                rw found
                  (rw is_p (ground (arith, either_protocol r.protocol, text_eq_comm name p.name)))
          ]
    ]

  -- What a key that is authenticated sees.
  pub listed-callable :
      IsWhole app.store
      → (any (text_eq name) (listed_models app key_id)
          ≡ (can_call app key_id name chat_completions || can_call app key_id name responses))
        × (is_ascending (listed_models app key_id) ≡ true)
  unfolding listed_models eligible_model_route_health
  listed-callable whole = (
    rw (can_call_lem chat_completions, can_call_lem responses)
        (any-names name (is_up app) (listed_rows app.store key_id app.store.eligibility)
          ∙ any-listed_rows app.store.eligibility
          ∙ any_or _ _ _ (offered whole) app.store.eligibility),
    names-ascending (is_up app) (listed_rows app.store key_id app.store.eligibility),
  )

module _ (hash_token : Text → List ℕ) where
  -- A key that is authenticated sees exactly the models that it can call. In a whole database the
  -- answer is the list object of names in strictly ascending order, so none occurs twice, and a
  -- name is among them just when a call of the key for that model finds candidates, as a chat
  -- completion or as a response.
  pub list_relay_models_correct :
      (app : AppState) (authorization : Option Text) (key_id : Text)
      → IsWhole app.store
      → require_relay_access_key hash_token app authorization ≡ passed key_id
      → (list_relay_models hash_token app authorization
          ≡ passed (model_list (listed_models app key_id)))
        × (is_ascending (listed_models app key_id) ≡ true)
        × ((name : Text)
            → any (text_eq name) (listed_models app key_id)
              ≡ (can_call app key_id name chat_completions || can_call app key_id name responses))
  unfolding list_relay_models
  list_relay_models_correct app authorization key_id whole authentic = (
    rw authentic refl,
    (listed-callable app key_id key_id whole).1,
    λ name. (listed-callable app key_id name whole).0,
  )
