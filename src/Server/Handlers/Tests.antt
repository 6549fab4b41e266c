-- ===== src/Server/Handlers/Tests.antt =====
-- Runs of the request handlers at concrete values.
use local_api_relay.Common.{
  any, ◌||◌, ◌∷◌, update_where, count_where, arith, All, ℕ, true, false, Option, some, List, [],
  ◌≡◌, refl, find_where,
}
use local_api_relay.Common.Int.{pos}
use local_api_relay.Common.Text.{
  Text, codes, text_eq, trim, is_whitespace, trim_end_matches, trim_start_matches,
}
use local_api_relay.Store.{chat_completions, responses}
use local_api_relay.Store.Health.{health_of}
use local_api_relay.Server.{AppState}
use local_api_relay.Server.Storage.{effective_health}
use local_api_relay.Server.Json.{Json, insert, end, entry, string, object, array, item, nil, field}
use local_api_relay.Store.Order.{text_ltb, sort_by, insert_by}
use local_api_relay.Store.Routing.{
  eligible_routes, eligible_rows, join, joined_row, comes_after, has_eligible_route,
}
use local_api_relay.Server.Handlers.{
  passed, denied, admit, choose, unknown_model, RelayCall, effective_candidates,
  normalize_null_message_content, require_relay_access_key, strip_prefix,
  authenticate_relay_access_key, check_input, check_stream, fix_messages, update_field,
}
use local_api_relay.Server.Handlers.Admission.{
  IsAuthentic, IsServable, admit-passed, choose-unknown,
}
use local_api_relay.Server.Handlers.Access.{withdraw, HashesUnique, Refines, apply, apply-Refines}
use local_api_relay.Store.{Store, ok}
use local_api_relay.Store.Keys.{is_key, revoke, revoke_relay_access_key}
use local_api_relay.Store.Integrity.{IsWhole}
use local_api_relay.Store.Routing.Listing.{
  eligible_model_route_health, listed_rows, listed_row, listed_after,
}
use local_api_relay.Store.Validation.{dedup}
use local_api_relay.Server.Handlers.Models.{listed_models, model_list, list_relay_models}
use local_api_relay.Server.Handlers.Models.Names.{is_ascending}
use local_api_relay.Server.Handlers.Models.Callable.{can_call, list_relay_models_correct}
use local_api_relay.Samples.{works, keyed_store, app, model_name}

abbrev keyed_app : AppState
keyed_app = record app { store = keyed_store }

abbrev body : List ℕ → Option Json
body bs = some (
    object (
      entry (codes "model") (string (codes " gpt ")) (
        entry (codes "messages") (array (item (object (entry (codes "content") Json.null end)) nil))
          (entry (codes "seed") (Json.number (pos 7)) end))))

admitted : RelayCall
admitted = record {
  key_id = codes "k1";
  published_model_name = model_name;
  stream = false;
  request = object (
      entry (codes "model") (string (codes " gpt ")) (
        entry (codes "messages")
          (array (item (object (entry (codes "content") (string []) end)) nil))
          (entry (codes "seed") (Json.number (pos 7))
            (entry (codes "stream") (Json.boolean false) end))));
  candidates = eligible_routes keyed_store (codes "k1") model_name chat_completions;
}

admits :
    admit (λ s. s) body chat_completions keyed_app (some (codes "Bearer secret")) (some [])
    ≡ passed admitted
unfolding admit admitted eligible_routes require_relay_access_key strip_prefix
    authenticate_relay_access_key find_where text_eq field trim check_input check_stream choose
    effective_candidates eligible_rows sort_by join joined_row health_of insert_by is_whitespace
    trim_end_matches trim_start_matches fix_messages normalize_null_message_content update_field
    insert effective_health comes_after text_ltb
admits = refl

admit-passed_example :
    IsAuthentic (λ s. s) keyed_app (some (codes "Bearer secret")) admitted.key_id
    × All
        (IsServable keyed_app admitted.key_id admitted.published_model_name chat_completions)
        admitted.candidates
    × (admitted.candidates
        ≡ effective_candidates keyed_app (
            eligible_routes keyed_app.store admitted.key_id admitted.published_model_name
              chat_completions))
admit-passed_example =
    admit-passed (λ s. s) body chat_completions keyed_app (some (codes "Bearer secret")) (some [])
      admitted admits

unknown : choose keyed_app (codes "k1") (codes "other") chat_completions ≡ denied unknown_model
unfolding choose effective_candidates eligible_routes eligible_rows sort_by join joined_row text_eq
    find_where health_of has_eligible_route
unknown = refl

choose-unknown_example :
    eligible_routes keyed_app.store (codes "k1") (codes "other") chat_completions ≡ []
choose-unknown_example =
    choose-unknown keyed_app (codes "k1") (codes "other") chat_completions unknown

abbrev plain : Text → Text
plain secret = secret

abbrev revoked_store : Store
revoked_store = record keyed_store {
  keys = update_where (is_key (codes "k1")) (revoke works) keyed_store.keys;
}

revoked : apply plain works keyed_store (withdraw (codes "k1")) ≡ ok revoked_store
unfolding apply revoke_relay_access_key count_where text_eq
revoked = refl

keyed-HashesUnique : HashesUnique keyed_store
unfolding count_where
keyed-HashesUnique hash = ground arith

apply-Refines_example : Refines plain keyed_store (withdraw (codes "k1")) revoked_store
apply-Refines_example =
    apply-Refines plain works keyed_store (withdraw (codes "k1")) revoked_store keyed-HashesUnique
      revoked

keyed-IsWhole : IsWhole keyed_store
unfolding count_where find_where text_eq
keyed-IsWhole = record {
  one_id = λ id. ground arith;
  one_identity = λ i. ground arith;
  one_health = λ id. refl;
  ends = ((refl, refl), ((refl, refl), tt));
  scopes = ground arith;
}

authentic :
    require_relay_access_key plain keyed_app (some (codes "Bearer secret")) ≡ passed (codes "k1")
unfolding require_relay_access_key strip_prefix authenticate_relay_access_key find_where text_eq
authentic = refl

listed : listed_models keyed_app (codes "k1") ≡ model_name ∷ []
unfolding listed_models eligible_model_route_health listed_rows listed_row sort_by insert_by
    listed_after find_where text_eq text_ltb health_of effective_health dedup
listed = refl

list_relay_models_correct_example :
    (list_relay_models plain keyed_app (some (codes "Bearer secret"))
      ≡ passed (model_list (listed_models keyed_app (codes "k1"))))
    × (is_ascending (listed_models keyed_app (codes "k1")) ≡ true)
    × ((name : Text)
        → any (text_eq name) (listed_models keyed_app (codes "k1")) ≡ (
            can_call keyed_app (codes "k1") name chat_completions
            || can_call keyed_app (codes "k1") name responses))
list_relay_models_correct_example =
    list_relay_models_correct plain keyed_app (some (codes "Bearer secret")) (codes "k1")
      keyed-IsWhole authentic
