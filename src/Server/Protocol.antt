-- ===== src/Server/Protocol.antt =====
-- src/server.rs: what an upstream's answer counts as. The complete responses of the two protocols,
-- semantic failures, attributable statuses, error categories and reported usage.
use local_api_relay.Common.{
  ℕ, String, Bool, true, false, not, ◌&&◌, ◌||◌, Option, none, some, List, [], ◌∷◌, ltb, leb, ◌==◌,
  if◌then◌else◌, is_some, unwrap_or, all,
}
use local_api_relay.Common.Int.{pos}
use local_api_relay.Common.Text.{Text, text_eq, codes, is_empty}
use local_api_relay.Store.{StreamProtocol, chat_completions, responses, Usage}
use local_api_relay.Server.Json.{Json, get, as_str, as_i64, as_array, is_object, is_null}

infixl 5 ◌>>=◌
abbrev pub ◌>>=◌ {ℓ κ} : {A : Type ℓ} {B : Type κ} → Option A → (A → Option B) → Option B
none >>= f = none
some a >>= f = f a

-- `is_some_and`
abbrev pub some_and {ℓ} : {A : Type ℓ} → Option A → (A → Bool) → Bool
some_and none p = false
some_and (some a) p = p a

abbrev pub str_at : String → Json → Option Text
str_at key body = get (codes key) body >>= as_str

abbrev pub str_is : String → String → Json → Bool
str_is key expected body = some_and (str_at key body) (λ s. text_eq s (codes expected))

abbrev pub has_name : String → Json → Bool
has_name key body = some_and (str_at key body) (λ s. not (is_empty s))

unfoldable pub is_complete_choice : Json → Bool
is_complete_choice choice =
    is_some (get (codes "index") choice >>= as_i64)
    && some_and (get (codes "message") choice) is_object
    && is_some (get (codes "finish_reason") choice)

abbrev pub is_nonempty {ℓ} : {A : Type ℓ} → List A → Bool
is_nonempty [] = false
is_nonempty (x ∷ xs) = true

unfoldable pub is_complete_chat_completion : Json → Bool
is_complete_chat_completion body =
    str_is "object" "chat.completion" body
    && has_name "id" body
    && is_some (get (codes "created") body >>= as_i64)
    && has_name "model" body
    && some_and (get (codes "choices") body >>= as_array)
        (λ choices. is_nonempty choices && all is_complete_choice choices)

unfoldable pub is_complete_responses_response : Json → Bool
is_complete_responses_response body =
    str_is "object" "response" body
    && has_name "id" body
    && is_some (get (codes "created_at") body >>= as_i64)
    && has_name "model" body
    && some_and (str_at "status" body) (λ s.
      text_eq s (codes "completed")
      || text_eq s (codes "failed")
      || text_eq s (codes "cancelled")
      || text_eq s (codes "incomplete"))
    && is_some (get (codes "output") body >>= as_array)

unfoldable pub responses_semantic_failure : Json → Bool
responses_semantic_failure body =
    some_and (str_at "status" body)
      (λ s. text_eq s (codes "failed") || text_eq s (codes "cancelled"))
    || some_and (get (codes "error") body) (λ e. not (is_null e))

unfoldable pub validate_complete_response : StreamProtocol → Json → Bool
validate_complete_response chat_completions body = is_complete_chat_completion body
validate_complete_response responses body = is_complete_responses_response body

unfoldable pub is_semantic_failure : StreamProtocol → Json → Bool
is_semantic_failure chat_completions body = false
is_semantic_failure responses body = responses_semantic_failure body

-- `StatusCode::is_success` and `is_server_error`
abbrev pub is_success_status : ℕ → Bool
is_success_status status = leb 200 status && ltb status 300

unfoldable pub is_attributable_upstream_status : ℕ → Bool
is_attributable_upstream_status status =
    (leb 500 status && ltb status 600)
    || status == 401
    || status == 403
    || status == 404
    || status == 429

unfoldable pub attributable_http_category : ℕ → String
attributable_http_category status =
    if status == 401
    then "upstream_http_401"
    else if status == 403
    then "upstream_http_403"
    else if status == 404
    then "upstream_http_404"
    else if status == 429
    then "upstream_http_429"
    else "upstream_http_5xx"

-- The codes of the errors, and an error as the client sees it.
pub data ErrorCode : Type 0 where
  upstream_timeout upstream_unavailable invalid_upstream_response upstream_semantic_failure
        all_upstream_attempts_failed no_available_route model_not_found invalid_api_key :
      ErrorCode

pub record RelayError : Type 0 where
  pub status : ℕ
  pub message : String
  pub error_type : String
  pub param : Option String
  pub code : Option ErrorCode
  pub authenticate : Bool

abbrev pub api_error : ℕ → String → Option ErrorCode → RelayError
api_error status message code = record {
  status = status;
  message = message;
  error_type = "api_error";
  param = none;
  code = code;
  authenticate = false;
}

unfoldable pub relay_error_category : RelayError → String
relay_error_category error = elim error.code [
  | some upstream_timeout ↦ "upstream_timeout"
  | some upstream_unavailable ↦ "upstream_connection"
  | some invalid_upstream_response ↦ "invalid_upstream_response"
  | some upstream_semantic_failure ↦ "upstream_semantic_failure"
  | _ ↦ "upstream_failure"
]

abbrev pub health_neutral_http_category : String
health_neutral_http_category = "upstream_http_4xx"

abbrev pub relay_candidates_exhausted_error : RelayError
relay_candidates_exhausted_error =
    api_error 502 "all eligible upstream attempts failed" (some all_upstream_attempts_failed)

abbrev pub invalid_upstream_response_error : StreamProtocol → RelayError
invalid_upstream_response_error chat_completions =
    api_error 502 "upstream returned an invalid Chat Completions response" none
invalid_upstream_response_error responses =
    api_error 502 "upstream returned an invalid Responses response" (some invalid_upstream_response)

abbrev pub relay_upstream_timeout_error : RelayError
relay_upstream_timeout_error = api_error 504 "upstream request timed out" (some upstream_timeout)

abbrev pub relay_upstream_transport_error : Bool → RelayError
relay_upstream_transport_error is_timeout =
    if is_timeout
    then relay_upstream_timeout_error
    else api_error 502 "could not reach the upstream service" (some upstream_unavailable)

abbrev pub usage_key : StreamProtocol → String → String → String
usage_key chat_completions chat other = chat
usage_key responses chat other = other

-- `extract_usage`
unfoldable pub extract_usage : StreamProtocol → Json → Option Usage
extract_usage protocol payload = do
  usage ← get (codes "usage") payload
  input ← get (codes (usage_key protocol "prompt_tokens" "input_tokens")) usage >>= as_i64
  output ← get (codes (usage_key protocol "completion_tokens" "output_tokens")) usage >>= as_i64
  let details = usage_key protocol "prompt_tokens_details" "input_tokens_details"
  let cached = do d ← get (codes details) usage; c ← get (codes "cached_tokens") d; as_i64 c
  some (record {
    input_tokens = input;
    cached_input_tokens = unwrap_or (pos 0) cached;
    output_tokens = output;
  })
