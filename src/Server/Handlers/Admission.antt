-- ===== src/Server/Handlers/Admission.antt =====
-- src/server.rs: what an admitted call has been checked for.
use local_api_relay.Common.{
  ℕ, Bool, true, false, not, ◌&&◌, Option, none, some, List, [], ◌∷◌, map, is_some, find_where, All,
  arith, ◌≡◌, refl, ap, sym, Bool-cases, Option-cases, inl, inr, subst, find_where_sound,
}
use local_api_relay.Common.Text.{Text, text_eq, text_eq_iff}
use local_api_relay.Store.{
  StreamProtocol, AccessKey, ModelRoute, ModelRouteCandidate, is_available, Store,
}
use local_api_relay.Store.Order.{sort_by}
use local_api_relay.Store.Routing.{Row, eligible_rows, eligible_routes, has_eligible_route}
use local_api_relay.Store.Routing.Candidates.{IsEligible, eligible_rows-All, none-join}
use local_api_relay.Server.{AppState}
use local_api_relay.Server.Storage.{effective_health}
use local_api_relay.Server.Json.{Json}
use local_api_relay.Server.Protocol.{RelayError}
use local_api_relay.Server.Handlers.{
  Checked, passed, denied, ◌>>=◌, present, effective_candidates, unknown_model, choose, RelayCall,
  authenticate_relay_access_key, require_relay_access_key, admit, unauthorized, bearer, as_object,
  model_of_request, check_input, check_stream,
}

pub record IsServable (app : AppState) (key_id name : Text) (protocol : StreamProtocol)
    (c : ModelRouteCandidate) : Type 0 where
  pub route : ModelRoute
  pub eligible : IsEligible app.store key_id name protocol app.store.eligibility (route, c)
  pub serving : is_available (effective_health app.route_health_override c.route_id c.health) ≡ true

module _ (app : AppState) (key_id name : Text) (protocol : StreamProtocol) where
  kept :
      (rows : List Row)
      → All (IsEligible app.store key_id name protocol app.store.eligibility) rows
      → All
          (IsServable app key_id name protocol)
          (effective_candidates app (map (λ (row : Row). row.1) rows))
  unfolding effective_candidates
  kept [] h = tt
  kept ((r, c) ∷ rows) (e, h) =
      elim (Bool-cases
        (is_available (effective_health app.route_health_override c.route_id c.health))) [
          | inl is_up ↦ rw is_up (record { route = r; eligible = e; serving = is_up }, kept rows h)
          | inr is_down ↦ rw is_down (kept rows h)
        ]

  candidates-All :
      All
        (IsServable app key_id name protocol)
        (effective_candidates app (eligible_routes app.store key_id name protocol))
  unfolding eligible_routes
  candidates-All =
      kept (eligible_rows app.store key_id name protocol)
        (eligible_rows-All app.store key_id name protocol)

  choose-passed :
      (cs : List ModelRouteCandidate)
      → choose app key_id name protocol ≡ passed cs
      → effective_candidates app (eligible_routes app.store key_id name protocol) ≡ cs
  unfolding choose
  choose-passed cs h = ground arith

  no_route :
      has_eligible_route app.store key_id name protocol ≡ false
      → eligible_routes app.store key_id name protocol ≡ []
  unfolding has_eligible_route eligible_routes eligible_rows sort_by
  no_route h = rw (none-join app.store key_id name protocol app.store.eligibility h) refl

  -- A key that gets the answer that the model is not available for it (404) has no eligible route
  -- for that model and protocol in the query, whatever their health: a route that is merely out is
  -- never reported as a missing model.
  pub choose-unknown :
      choose app key_id name protocol ≡ denied unknown_model
      → eligible_routes app.store key_id name protocol ≡ []
  unfolding choose
  choose-unknown h = elim (Bool-cases (has_eligible_route app.store key_id name protocol)) [
    | inl is_up ↦ absurd (ground arith)
    | inr is_down ↦ no_route is_down
  ]

pub >>=-inv :
    {A B : Type 0} (m : Checked A) (f : A → Checked B) (b : B)
    → (m >>= f) ≡ passed b
    → (a : A) × (m ≡ passed a) × (f a ≡ passed b)
>>=-inv (passed a) f b h = (a, refl, h)
>>=-inv (denied e) f b h = absurd (cc)

pub passed-inj : {A : Type 0} {a b : A} → passed a ≡ passed b → a ≡ b
passed-inj h = cc

pub present-passed :
    {A : Type 0} (o : Option A) (e : RelayError) (a : A) → present o e ≡ passed a → o ≡ some a
present-passed none e a h = absurd (cc)
present-passed (some b) e a h = ap some (passed-inj h)

module _ (hash_token : Text → List ℕ) where
  -- The key of a row that is not revoked and has the secret's hash.
  abbrev is_key_of : Text → AccessKey → Bool
  is_key_of secret k = text_eq k.secret_hash (hash_token secret) && not (is_some k.revoked_at)

  -- The row of the keys that a call was authenticated by, and the secret that it carried.
  pub record IsAuthentic (app : AppState) (authorization : Option Text) (key_id : Text)
      : Type 0 where
    pub header : Text
    pub secret : Text
    pub row : AccessKey
    pub given : authorization ≡ some header
    pub carried : bearer header ≡ some secret
    pub found : find_where (is_key_of secret) app.store.keys ≡ some row
    pub identified : row.id ≡ key_id
    pub hashed : row.secret_hash ≡ hash_token secret
    pub active : is_some row.revoked_at ≡ false

  authenticated_row :
      (s : Store) (secret key_id : Text)
      → authenticate_relay_access_key hash_token s secret ≡ some key_id
      → (k : AccessKey) × (find_where (is_key_of secret) s.keys ≡ some k) × (k.id ≡ key_id)
  unfolding authenticate_relay_access_key
  authenticated_row s secret key_id h = elim (Option-cases (find_where (is_key_of secret) s.keys)) [
    | inl e ↦ absurd (ground arith)
    | inr (k, e) ↦ (k, e, ground arith)
  ]

  authentic :
      (app : AppState) (authorization : Option Text) (key_id : Text)
      → require_relay_access_key hash_token app authorization ≡ passed key_id
      → IsAuthentic app authorization key_id
  unfolding require_relay_access_key
  authentic app authorization key_id h =
      let (header, given, h₁) = >>=-inv (present authorization unauthorized) _ key_id h in
      let (secret, carried, h₂) = >>=-inv (present (bearer header) unauthorized) _ key_id h₁ in
      let (k, e, same) =
        authenticated_row app.store secret key_id (present-passed _ unauthorized key_id h₂) in
      let test = find_where_sound (is_key_of secret) app.store.keys k e in
      record {
        header = header;
        secret = secret;
        row = k;
        given = present-passed authorization unauthorized header given;
        carried = present-passed (bearer header) unauthorized secret carried;
        found = e;
        identified = same;
        hashed = (text_eq_iff k.secret_hash (hash_token secret)).0 (ground arith);
        active = ground arith;
      }

  module _ (from_slice : List ℕ → Option Json) (protocol : StreamProtocol) where
    -- A request that `chat_completions` or `responses` lets through carries the secret of a key
    -- that is not revoked. Its candidates are the routes that the query for that key, model and
    -- protocol returns, in its order, less those whose effective health is not available: each is
    -- listed for the key in the eligibility table, joins the requested model, the protocol and a
    -- provider, and is available, the in-memory overrides counted.
    pub admit-passed :
        (app : AppState) (authorization : Option Text) (body : Option (List ℕ)) (call : RelayCall)
        → admit hash_token from_slice protocol app authorization body ≡ passed call
        → IsAuthentic app authorization call.key_id
          × All (IsServable app call.key_id call.published_model_name protocol) call.candidates
          × (call.candidates
              ≡ effective_candidates app
                  (eligible_routes app.store call.key_id call.published_model_name protocol))
    unfolding admit
    admit-passed app authorization body call h =
        let (key, auth, h₁) =
          >>=-inv (require_relay_access_key hash_token app authorization) _ call h in
        let (bs, _, h₂) = >>=-inv (present body _) _ call h₁ in
        let (json, _, h₃) = >>=-inv (present (from_slice bs) _) _ call h₂ in
        let (fs, _, h₄) = >>=-inv (present (as_object json) _) _ call h₃ in
        let (name, _, h₅) = >>=-inv (present (model_of_request fs) _) _ call h₄ in
        let (_, _, h₆) = >>=-inv (check_input protocol fs) _ call h₅ in
        let (streamed, _, h₇) = >>=-inv (check_stream fs) _ call h₆ in
        let (cs, chosen, h₈) = >>=-inv (choose app key name protocol) _ call h₇ in
        let same = choose-passed app key name protocol cs chosen in
        subst
          (λ (c : RelayCall).
            IsAuthentic app authorization c.key_id
            × All (IsServable app c.key_id c.published_model_name protocol) c.candidates
            × (c.candidates
                ≡ effective_candidates app
                    (eligible_routes app.store c.key_id c.published_model_name protocol)))
          (passed-inj h₈)
          (
            authentic app authorization key auth,
            subst (All (IsServable app key name protocol)) same
                (candidates-All app key name protocol),
            sym same,
          )
