-- ===== src/Server/Handlers.antt =====
-- src/server.rs: what `chat_completions` and `responses` check of a request, up to the candidates that
-- they hand to a relay. A header that is no visible text counts as missing. The SHA-256 of a key is
-- `hash_token`, and `from_slice` the JSON library's parser.
pub mod Admission
pub mod Normalize
pub mod Forwarded
pub mod Access
pub mod Models
mod Tests
use local_api_relay.Common.{
  ℕ, String, Bool, true, false, not, ◌&&◌, ◌||◌, Option, none, some, List, [], ◌∷◌, ltb, ◌==◌,
  if◌then◌else◌, is_some, keep, find_where,
}
use local_api_relay.Common.Text.{Text, codes, text_eq, is_empty, trim}
use local_api_relay.Store.{
  StreamProtocol, chat_completions, responses, AccessKey, ModelRouteCandidate, is_available, Store,
}
use local_api_relay.Store.Routing.{eligible_routes, has_eligible_route}
use local_api_relay.Server.{AppState, RouteHealthOverride}
use local_api_relay.Server.Storage.{effective_health}
use local_api_relay.Server.Json.{
  Json, Items, Fields, nil, item, end, entry, string, array, object, boolean, insert, field, get,
  as_str, is_null,
}
use local_api_relay.Server.Protocol.{
  RelayError, ErrorCode, api_error, no_available_route, model_not_found, invalid_api_key, some_and,
}

pub data Checked {ℓ} (A : Type ℓ) : Type ℓ where
  passed : A → Checked A
  denied : RelayError → Checked A

infixl 5 ◌>>=◌
abbrev pub ◌>>=◌ {ℓ κ} : {A : Type ℓ} {B : Type κ} → Checked A → (A → Checked B) → Checked B
passed a >>= f = f a
denied e >>= f = denied e

abbrev pub ensure : Bool → RelayError → Checked (Unit {0})
ensure test error = if test then passed tt else denied error

abbrev pub present {ℓ} : {A : Type ℓ} → Option A → RelayError → Checked A
present none error = denied error
present (some a) error = passed a

abbrev pub invalid_request : ℕ → String → Option String → Option ErrorCode → RelayError
invalid_request status message param code = record {
  status = status;
  message = message;
  error_type = "invalid_request_error";
  param = param;
  code = code;
  authenticate = false;
}

abbrev pub unauthorized : RelayError
unauthorized = record {
  status = 401;
  message = "a valid relay access key is required";
  error_type = "authentication_error";
  param = none;
  code = some invalid_api_key;
  authenticate = true;
}

-- `str::strip_prefix`
unfoldable pub strip_prefix : Text → Text → Option Text
strip_prefix [] s = some s
strip_prefix (a ∷ p) [] = none
strip_prefix (a ∷ p) (b ∷ s) = if a == b then strip_prefix p s else none

abbrev pub or_none : (Text → Bool) → Option Text → Option Text
or_none p none = none
or_none p (some s) = if p s then some s else none

abbrev pub is_nonempty : Text → Bool
is_nonempty s = not (is_empty s)

-- `overrides_snapshot` and `effective_candidates`
unfoldable pub effective_candidates : AppState → List ModelRouteCandidate → List ModelRouteCandidate
effective_candidates app candidates =
    keep
      (λ (c : ModelRouteCandidate).
        is_available (effective_health app.route_health_override c.route_id c.health))
      candidates

-- `content: null` of one message.
abbrev pub fix_content : Fields → Fields
fix_content fs =
    if some_and (field (codes "content") fs) is_null
    then insert (codes "content") (string []) fs
    else fs

abbrev pub fix_message : Json → Json
fix_message (object fs) = object (fix_content fs)
fix_message message = message

unfoldable pub fix_messages : Items → Items
fix_messages nil = nil
fix_messages (item v vs) = item (fix_message v) (fix_messages vs)

abbrev pub fix_array : Json → Json
fix_array (array vs) = array (fix_messages vs)
fix_array v = v

-- What `get_mut` of a key and a write through it does: the first entry of that key.
unfoldable pub update_field : Text → (Json → Json) → Fields → Fields
update_field key f end = end
update_field key f (entry k v fs) =
    if text_eq k key then entry k (f v) fs else entry k v (update_field key f fs)

unfoldable pub normalize_null_message_content : Json → Json
normalize_null_message_content (object fs) =
    object (update_field (codes "input") fix_array (update_field (codes "messages") fix_array fs))
normalize_null_message_content request = request

abbrev pub is_array : Json → Bool
is_array (array vs) = true
is_array _ = false

abbrev pub is_string : Json → Bool
is_string (string s) = true
is_string _ = false

-- The field that carries the conversation.
unfoldable pub check_input : StreamProtocol → Fields → Checked (Unit {0})
check_input chat_completions fs =
    ensure (some_and (field (codes "messages") fs) is_array)
      (invalid_request 400 "messages must be an array" (some "messages") none)
check_input responses fs =
    ensure (some_and (field (codes "input") fs) (λ v. is_string v || is_array v))
      (invalid_request 400 "input must be a string or array" (some "input") none)

-- The flag, and the request with the flag filled in.
unfoldable pub check_stream : Fields → Checked (Bool × Fields)
check_stream fs = elim (field (codes "stream") fs) [
  | none ↦ passed (false, insert (codes "stream") (boolean false) fs)
  | some (boolean stream) ↦ passed (stream, fs)
  | some _ ↦ denied (invalid_request 400 "stream must be a boolean" (some "stream") none)
]

abbrev pub as_object : Json → Option Fields
as_object (object fs) = some fs
as_object _ = none

abbrev pub model_of_request : Fields → Option Text
model_of_request fs = elim (field (codes "model") fs) [
  | some (string s) ↦ or_none is_nonempty (some (trim s))
  | _ ↦ none
]

pub record RelayCall : Type 0 where
  pub key_id : Text
  pub published_model_name : Text
  pub stream : Bool
  pub request : Json
  pub candidates : List ModelRouteCandidate

abbrev pub no_route_available : RelayError
no_route_available =
    api_error 503 "no eligible model route is currently available" (some no_available_route)

abbrev pub unknown_model : RelayError
unknown_model =
    invalid_request 404 "the requested published model is not available for this relay access key"
      (some "model") (some model_not_found)

-- The candidates of a call, or why there is none.
unfoldable pub choose : AppState → Text → Text → StreamProtocol → Checked (List ModelRouteCandidate)
choose app key_id name protocol =
    elim (effective_candidates app (eligible_routes app.store key_id name protocol)) [
      | [] ↦ denied (
          if has_eligible_route app.store key_id name protocol
          then no_route_available
          else unknown_model)
      | c ∷ cs ↦ passed (c ∷ cs)
    ]

-- The secret that the header carries.
abbrev pub bearer : Text → Option Text
bearer authorization = or_none is_nonempty (strip_prefix (codes "Bearer ") authorization)

module _ (hash_token : Text → List ℕ) where
  -- `Store::authenticate_relay_access_key`
  unfoldable pub authenticate_relay_access_key : Store → Text → Option Text
  authenticate_relay_access_key s secret =
      elim (find_where
        (λ (k : AccessKey). text_eq k.secret_hash (hash_token secret) && not (is_some k.revoked_at))
        s.keys) [ none ↦ none | some k ↦ some k.id ]

  unfoldable pub require_relay_access_key : AppState → Option Text → Checked Text
  require_relay_access_key app authorization = do
    header ← present authorization unauthorized
    secret ← present (bearer header) unauthorized
    present (authenticate_relay_access_key app.store secret) unauthorized

  -- `chat_completions` and `responses`; a body is missing when it is too large to be read.
  unfoldable pub admit :
      (List ℕ → Option Json)
      → StreamProtocol
      → AppState
      → Option Text
      → Option (List ℕ)
      → Checked RelayCall
  admit from_slice protocol app authorization body = do
    key_id ← require_relay_access_key app authorization
    bytes ← present body (invalid_request 413 "request body is too large" none none)
    json ←
        present (from_slice bytes) (invalid_request 400 "request body must be valid JSON" none none)
    fs ←
        present (as_object json)
          (invalid_request 400 "request body must be a JSON object" none none)
    name ←
        present (model_of_request fs)
          (invalid_request 400 "model must be a non-empty string" (some "model") none)
    _ ← check_input protocol fs
    streamed ← check_stream fs
    candidates ← choose app key_id name protocol
    passed (record {
      key_id = key_id;
      published_model_name = name;
      stream = streamed.0;
      request = normalize_null_message_content (object streamed.1);
      candidates = candidates;
    })
