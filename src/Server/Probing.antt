-- ===== src/Server/Probing.antt =====
-- src/server.rs: what a probe of a route asks its upstream, and what its result says. What comes back
-- is an argument; a deadline that passes and a transport error are both no answer.
pub mod Verdict
mod Tests
use local_api_relay.Common.{
  ℕ, String, Bool, true, false, not, ◌&&◌, Option, none, some, List, [], ◌∷◌, ◌++◌, any, ◌==◌,
  if◌then◌else◌,
}
use local_api_relay.Common.Text.{Text, codes, text_eq, trim_end_matches}
use local_api_relay.Store.{StreamProtocol, Env}
use local_api_relay.Store.Probes.{ProbeConfiguration}
use local_api_relay.Store.Validation.{sort, dedup}
use local_api_relay.Server.{AppState, SentRequest}
use local_api_relay.Server.Storage.{record_probe_result}
use local_api_relay.Server.Json.{Json, get, as_str, as_array}
use local_api_relay.Server.Protocol.{
  is_success_status, validate_complete_response, is_semantic_failure, some_and, str_is, ◌>>=◌,
}
use local_api_relay.Server.Relay.{upstream_endpoint}

-- An upstream's answer: its status, and its body if that could be read and parsed.
pub data Reply : Type 0 where
  no_reply : Reply
  replied : ℕ → Option Json → Reply

abbrev pub models_endpoint : Text → Text
models_endpoint base_url = trim_end_matches (λ c. c == b'/') base_url ++ codes "/models"

abbrev pub entry_ids : List Json → List Text
entry_ids [] = []
entry_ids (e ∷ es) = elim (get (codes "id") e >>= as_str) [
  | none ↦ entry_ids es
  | some id ↦ id ∷ entry_ids es
]

-- The names of the answer's list; every error has the same effect.
abbrev pub names_of : Json → Option (List Text)
names_of body =
    if str_is "object" "list" body
    then elim (get (codes "data") body >>= as_array) [
      | none ↦ some []
      | some es ↦ some (dedup (sort (entry_ids es)))
    ]
    else none

unfoldable pub fetch_upstream_model_list : Reply → Option (List Text)
unfolding dedup
fetch_upstream_model_list no_reply = none
fetch_upstream_model_list (replied status body) =
    if is_success_status status then body >>= names_of else none

abbrev pub names_include : Text → List Text → Bool
names_include model = any (text_eq model)

unfoldable pub light_validation_passes : Option (List Text) → Text → Bool
light_validation_passes list upstream_model_name = some_and list (names_include upstream_model_name)

abbrev pub native_request : ProbeConfiguration → SentRequest
native_request probe = record {
  endpoint = upstream_endpoint probe.protocol probe.base_url;
  api_key = probe.api_key;
  model = probe.upstream_model_name;
}

abbrev pub is_valid : StreamProtocol → Json → Bool
is_valid protocol body =
    validate_complete_response protocol body && not (is_semantic_failure protocol body)

-- `native_probe`, with what its request brings back.
unfoldable pub native_probe : StreamProtocol → Reply → Bool × Option ℕ
native_probe protocol no_reply = (false, none)
native_probe protocol (replied status body) =
    if is_success_status status
    then (some_and body (is_valid protocol), some status)
    else (false, some status)

-- What `spawn_startup_probe_task` does for one probe: a listed model needs no native probe.
unfoldable pub startup_result : ProbeConfiguration → Option (List Text) → Reply → Bool × Option ℕ
startup_result probe list native =
    if light_validation_passes list probe.upstream_model_name
    then (true, some 200)
    else native_probe probe.protocol native

-- What `spawn_recovery_scheduler` does for one probe: a model that is gone needs no native probe.
unfoldable pub recovery_result : ProbeConfiguration → Option (List Text) → Reply → Bool × Option ℕ
recovery_result probe none native = native_probe probe.protocol native
recovery_result probe (some names) native =
    if names_include probe.upstream_model_name names
    then native_probe probe.protocol native
    else (false, some 200)

abbrev record_result : Env → AppState → ProbeConfiguration → Bool × Option ℕ → AppState
record_result env app probe (succeeded, http_status) =
    record_probe_result env app probe.route_id probe.quarantine_epoch succeeded http_status

-- The catalog of the provider, and then what the native probe brings back.
unfoldable pub startup_probe : Env → AppState → ProbeConfiguration → Reply → Reply → AppState
startup_probe env app probe catalog native =
    record_result env app probe (startup_result probe (fetch_upstream_model_list catalog) native)

unfoldable pub recovery_probe : Env → AppState → ProbeConfiguration → Reply → Reply → AppState
recovery_probe env app probe catalog native =
    record_result env app probe (recovery_result probe (fetch_upstream_model_list catalog) native)
