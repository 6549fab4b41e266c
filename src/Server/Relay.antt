-- ===== src/Server/Relay.antt =====
-- src/server.rs: the fallback loop over the candidates of a call, and the handler of a complete
-- response. Each candidate comes with what its upstream does and with the clocks of that attempt; a
-- deadline that passes is one of the things that an upstream does. The settings are read without
-- failure. `from_slice` is the JSON library's parser.
pub mod Rounds
pub mod Order
pub mod Effects
pub mod Verdicts
pub mod Replies
pub mod Answers
pub mod Complete
use local_api_relay.Common.{
  ℕ, String, Bool, true, false, not, Option, none, some, List, [], ◌∷◌, ◌++◌, if◌then◌else◌,
  unwrap_or,
}
use local_api_relay.Common.Int.{ℤ}
use local_api_relay.Common.Text.{Text, codes}
use local_api_relay.Store.{
  ModelRouteCandidate, StreamProtocol, chat_completions, responses, AttemptOutcome, fallback,
  failed, success, pre_commit, committed, Env,
}
use local_api_relay.Server.{SentRequest, AppState}
use local_api_relay.Server.Storage.{quarantine_route}
use local_api_relay.Server.Recorder.{
  CallRecorder, new_recorder, begin_model_route_attempt, finish_model_route_attempt, note_usage,
  finalize_and_write,
}
use local_api_relay.Server.Json.{Json, string, object, insert}
use local_api_relay.Server.Protocol.{
  RelayError, api_error, relay_error_category, is_success_status, is_attributable_upstream_status,
  attributable_http_category, health_neutral_http_category, relay_candidates_exhausted_error,
  invalid_upstream_response_error, relay_upstream_transport_error, upstream_semantic_failure,
  validate_complete_response, is_semantic_failure, extract_usage,
}
use local_api_relay.Store.Health
use local_api_relay.Store.Settings

unfoldable pub upstream_endpoint : StreamProtocol → Text → Text
upstream_endpoint chat_completions base_url = base_url ++ codes "/chat/completions"
upstream_endpoint responses base_url = base_url ++ codes "/responses"

-- What comes back from `send_upstream_request`: no response, by a timeout or another transport
-- error, or a status with a body of the handler's type.
pub data Upstream (B : Type 0) : Type 0 where
  no_response : Bool → Upstream B
  responded : ℕ → B → Upstream B

pub record Exchange (B : Type 0) : Type 0 where
  pub env : Env
  pub started : ℕ
  pub ended : ℕ
  pub upstream : Upstream B

pub record PreCommitFailure : Type 0 where
  pub error : RelayError
  pub category : String
  pub http_status : Option ℕ

pub data PreCommitOutcome (R : Type 0) : Type 0 where
  commit : AppState → R → PreCommitOutcome R
  fall_through : PreCommitFailure → CallRecorder → PreCommitOutcome R

-- A success-path handler: it gets the clocks of the attempt, the state, the recorder, the status and
-- the body.
abbrev pub OnSuccess : Type 0 → Type 0 → Type 0
OnSuccess B R = Env → ℕ → AppState → CallRecorder → ℕ → B → PreCommitOutcome R

-- How one round of the loop ends.
pub data Round (R : Type 0) : Type 0 where
  stop : AppState → R → Round R
  go_on : AppState → CallRecorder → RelayError → Round R

pub data Relayed (R : Type 0) : Type 0 where
  answered : AppState → R → Relayed R
  refused : AppState → RelayError → Relayed R

abbrev pub is_last {ℓ} : {A : Type ℓ} → List A → Bool
is_last [] = true
is_last (x ∷ xs) = false

abbrev pub upstream_failed : ℕ → RelayError
upstream_failed status = api_error status "upstream request failed" none

abbrev pub request_to : StreamProtocol → ModelRouteCandidate → SentRequest
request_to protocol c = record {
  endpoint = upstream_endpoint protocol c.base_url;
  api_key = c.api_key;
  model = c.upstream_model_name;
}

-- `send_upstream_request`
unfoldable pub send : StreamProtocol → AppState → ModelRouteCandidate → AppState
send protocol app c = record app { sent = app.sent ++ request_to protocol c ∷ [] }

module _ {B R : Type 0} (on_success : OnSuccess B R) (protocol : StreamProtocol) where
  -- The two arms that end a round with a failed attempt, without and with a quarantine.
  abbrev pub skip :
      Exchange B
      → AppState
      → CallRecorder
      → Option ℕ
      → String
      → AttemptOutcome
      → RelayError
      → Round R
  skip x app r http_status category outcome error =
      go_on app
        (finish_model_route_attempt x.ended r http_status (some category) pre_commit outcome) error

  abbrev pub blame :
      Exchange B
      → ModelRouteCandidate
      → AppState
      → CallRecorder
      → Option ℕ
      → String
      → AttemptOutcome
      → RelayError
      → Round R
  blame x c app r http_status category outcome error =
      skip x (quarantine_route x.env app c.route_id category http_status) r http_status category
        outcome error

  unfoldable pub after_handler :
      Exchange B → ModelRouteCandidate → AppState → AttemptOutcome → PreCommitOutcome R → Round R
  after_handler x c app outcome (commit app' response) =
      stop (record app' { store = Health.clear_route_failure_count app'.store c.route_id }) response
  after_handler x c app outcome (fall_through failure r) =
      blame x c app r failure.http_status failure.category outcome failure.error

  -- One round of the loop, for a candidate whose attempt has begun and whose request is sent.
  unfoldable pub attempt :
      ModelRouteCandidate
      → Exchange B
      → AppState
      → CallRecorder
      → AttemptOutcome
      → Upstream B
      → Round R
  attempt c x app r outcome (no_response is_timeout) =
      let error = relay_upstream_transport_error is_timeout in
      blame x c app r none (relay_error_category error) outcome error
  attempt c x app r outcome (responded status body) =
      if is_success_status status
      then after_handler x c app outcome (on_success x.env x.ended app r status body)
      else if is_attributable_upstream_status status
      then blame x c app r (some status) (attributable_http_category status) outcome
          (upstream_failed status)
      else skip x app r (some status) health_neutral_http_category outcome (upstream_failed status)

  unfoldable pub round : ModelRouteCandidate → Exchange B → Bool → AppState → CallRecorder → Round R
  round c x last app r =
      attempt c x (send protocol app c) (begin_model_route_attempt x.started r c)
        (if last then failed else fallback) x.upstream

  -- `relay_precommit_fallback_loop` from some candidate on; `env` and `now` are of its end.
  unfoldable pub relay_from :
      Env
      → ℕ
      → List (ModelRouteCandidate × Exchange B)
      → AppState
      → CallRecorder
      → Option RelayError
      → Relayed R
  relay_from env now [] app r final_error =
      refused (finalize_and_write env now app r false)
        (unwrap_or relay_candidates_exhausted_error final_error)
  relay_from env now ((c, x) ∷ rest) app r final_error = elim (round c x (is_last rest) app r) [
    | stop app' response ↦ answered app' response
    | go_on app' r' error ↦ relay_from env now rest app' r' (some error)
  ]

-- The body of a response: it cannot be read, by a deadline or a transport error, or its bytes.
pub data Body : Type 0 where
  unreadable : Bool → Body
  bytes : List ℕ → Body

pub record JsonResponse : Type 0 where
  pub status : ℕ
  pub body : Json

-- `response["model"] = published_model_name`, on a validated response, which is an object.
abbrev pub set_model : Text → Json → Json
set_model name (object fs) = object (insert (codes "model") (string name) fs)
set_model name body = body

-- What the handler makes of a response with a success status: the JSON to relay, or a failure.
pub data Reading : Type 0 where
  accept : Json → Reading
  reject : PreCommitFailure → Reading

abbrev pub invalid_response : StreamProtocol → ℕ → PreCommitFailure
invalid_response protocol status = record {
  error = invalid_upstream_response_error protocol;
  category = "invalid_upstream_response";
  http_status = some status;
}

module _ (from_slice : List ℕ → Option Json) (protocol : StreamProtocol) where
  abbrev pub read_json : ℕ → Option Json → Reading
  read_json status none = reject (invalid_response protocol status)
  read_json status (some body) =
      if not (validate_complete_response protocol body)
      then reject (invalid_response protocol status)
      else if is_semantic_failure protocol body
      then reject (record {
        error =
            api_error 502 "upstream returned a failed Responses response"
              (some upstream_semantic_failure);
        category = "upstream_semantic_failure";
        http_status = some status;
      })
      else accept body

  unfoldable pub read_body : ℕ → Body → Reading
  read_body status (unreadable is_timeout) =
      let error = relay_upstream_transport_error is_timeout in
      reject (record { error = error; category = relay_error_category error; http_status = none })
  read_body status (bytes b) = read_json status (from_slice b)

  -- The handler that `relay_non_streaming` gives to the loop.
  unfoldable pub non_streaming_handler : Text → OnSuccess Body JsonResponse
  non_streaming_handler name env now app r status body = elim (read_body status body) [
    | reject failure ↦ fall_through failure r
    | accept json ↦
        let relayed = set_model name json in
        let r' = finish_model_route_attempt now r (some status) none committed success in
        let r'' = note_usage r' (extract_usage protocol relayed) in
        commit (finalize_and_write env now app r'' true)
          (record { status = status; body = relayed })
  ]

  -- `relay_non_streaming`; the call starts at `created_at_ms` and `start`.
  unfoldable pub relay_non_streaming :
      ℤ
      → ℕ
      → Env
      → ℕ
      → Text
      → List (ModelRouteCandidate × Exchange Body)
      → AppState
      → Relayed JsonResponse
  relay_non_streaming created_at_ms start env now name candidates app =
      relay_from (non_streaming_handler name) protocol env now candidates app
        (new_recorder created_at_ms start name protocol false) none
