-- ===== src/Store.antt =====
-- src/store.rs: the rows of the tables, the store's state, its errors and the outside values that
-- its operations read. A statement that SQLite itself refuses is the error `sql`; an error inside a
-- transaction rolls it back, so it carries no state. Identifiers are texts; a counter that goes up
-- by one is a natural number, and an instant or a setting is an `i64` as an integer.
pub mod Settings
pub mod Health
pub mod Calls
pub mod Windows
pub mod Retention
pub mod Routing
pub mod Decimal
pub mod Validation
pub mod Order
pub mod Probes
pub mod Providers
pub mod Models
pub mod Routes
pub mod Keys
pub mod Ensures
pub mod Integrity
pub mod Sessions
mod ConfigTests
mod Tests
use local_api_relay.Common.{ℕ, String, Bool, true, false, Option, none, some, List, ◌≡◌, refl}
use local_api_relay.Common.Int.{ℤ}
use local_api_relay.Common.Text.{Text}
use local_api_relay.Timeutil.{Date}

pub data RouteHealth : Type 0 where
  checking available unavailable : RouteHealth

-- `state == RouteHealth::…`
abbrev pub is_checking : RouteHealth → Bool
is_checking checking = true
is_checking _ = false

abbrev pub is_available : RouteHealth → Bool
is_available available = true
is_available _ = false

abbrev pub is_unavailable : RouteHealth → Bool
is_unavailable unavailable = true
is_unavailable _ = false

pub data StreamProtocol : Type 0 where
  chat_completions responses : StreamProtocol

abbrev pub protocol_eq : StreamProtocol → StreamProtocol → Bool
protocol_eq chat_completions chat_completions = true
protocol_eq responses responses = true
protocol_eq _ _ = false

pub record RecoverySettings : Type 0 where
  pub base_interval_ms : ℤ
  pub doubling_limit : ℤ
  pub first_event_timeout_ms : ℤ
  pub stream_idle_timeout_ms : ℤ
  pub nonstream_timeout_ms : ℤ
  pub freshness_interval_ms : ℤ
  pub quarantine_threshold : ℤ
  pub upstream_sync_interval_ms : ℤ

-- A row of `upstream_providers`.
pub record Provider : Type 0 where
  pub id : Text
  pub display_name : Text
  pub base_url : Text
  pub api_key : Text

-- A row of `published_models`.
pub record PublishedModel : Type 0 where
  pub id : Text
  pub name : Text
  pub input_price : ℤ
  pub output_price : ℤ
  pub cached_price : ℤ
  pub deprecated_at : Option ℤ

-- A row of `model_routes`.
pub record ModelRoute : Type 0 where
  pub id : Text
  pub published_model_id : Text
  pub provider_id : Text
  pub upstream_model_name : Text
  pub protocol : StreamProtocol
  pub cost_multiplier : ℤ

-- A row of `model_route_health`.
pub record HealthRow : Type 0 where
  pub route_id : Text
  pub state : RouteHealth
  pub checked_at : Option ℤ
  pub failure_category : Option String
  pub failed_probe_count : ℕ
  pub next_probe_at_ms : Option ℤ
  pub last_http_status : Option ℕ
  pub quarantine_epoch : ℕ
  pub consecutive_failures : ℕ

-- A row of `relay_access_keys`.
pub record AccessKey : Type 0 where
  pub id : Text
  pub secret_prefix : Text
  pub secret_hash : Text
  pub label : Text
  pub created_at : ℤ
  pub revoked_at : Option ℤ
  pub secret : Option Text

-- A row of `relay_key_route_eligibility`.
pub record Eligibility : Type 0 where
  pub key_id : Text
  pub route_id : Text

pub record ModelRouteCandidate : Type 0 where
  pub route_id : Text
  pub provider_id : Text
  pub provider_name : Text
  pub base_url : Text
  pub api_key : Text
  pub upstream_model_name : Text
  pub health : RouteHealth

pub record Usage : Type 0 where
  pub input_tokens : ℤ
  pub cached_input_tokens : ℤ
  pub output_tokens : ℤ

pub data AttemptOutcome : Type 0 where
  fallback failed success stream_terminated client_cancelled : AttemptOutcome

abbrev pub is_success : AttemptOutcome → Bool
is_success success = true
is_success _ = false

abbrev pub is_fallback : AttemptOutcome → Bool
is_fallback fallback = true
is_fallback _ = false

pub data CommitPhase : Type 0 where
  pre_commit committed : CommitPhase

pub record ModelRouteAttempt : Type 0 where
  pub sequence : ℕ
  pub route_id : Text
  pub provider_id : Text
  pub provider_name : Text
  pub started_at_ms : ℤ
  pub duration_ms : ℕ
  pub http_status : Option ℕ
  pub failure_category : Option String
  pub commit_phase : CommitPhase
  pub outcome : AttemptOutcome

pub record NewCallRecord : Type 0 where
  pub created_at_ms : ℤ
  pub published_model_name : Text
  pub protocol : StreamProtocol
  pub streamed : Bool
  pub succeeded : Bool
  pub success_provider_id : Option Text
  pub success_provider_name : Option Text
  pub usage : Option Usage
  pub completion_ms : Option ℕ
  pub first_token_ms : Option ℕ
  pub attempts : List ModelRouteAttempt

-- A row of `call_records` with its attempts, and the estimated cost, an `f64` in RMB that is kept
-- exactly, in units of 10^-18 RMB.
pub record CallRow : Type 0 where
  pub call : NewCallRecord
  pub cost : Option ℤ

-- A row of `usage_gaps` of the category of the call records.
pub record UsageGap : Type 0 where
  pub started_at_ms : ℤ
  pub ended_at_ms : Option ℤ
  pub lost_records : ℕ

-- A row of `daily_usage`; its cost is kept as that of a call.
pub record DailyUsage : Type 0 where
  pub day : Date
  pub published_model_name : Text
  pub provider_id : Text
  pub provider_name : Text
  pub input_tokens : ℤ
  pub cached_input_tokens : ℤ
  pub output_tokens : ℤ
  pub cost : ℤ

-- The categories of the degradable records.
pub data Category : Type 0 where
  call_records route_health : Category

-- The operational events that the modelled code records, with the parts of their payload that it
-- computes. A call event has its code, and the number and last failure category of its attempts.
pub data Event : Type 0 where
  check_available : Text → Event
  check_unavailable : Text → ℕ → Event
  quarantined : Text → String → Event
  gap_opened gap_closed : Event
  storage_degraded storage_recovered storage_not_ready : Category → Event
  call_event : String → ℕ → Option String → Event

-- The open database: its schema version, its tables, oldest row first, and the event history.
pub record Store : Type 0 where
  pub schema : ℕ
  pub settings : RecoverySettings
  pub providers : List Provider
  pub models : List PublishedModel
  pub routes : List ModelRoute
  pub health : List HealthRow
  pub keys : List AccessKey
  pub eligibility : List Eligibility
  pub calls : List CallRow
  pub daily_usage : List DailyUsage
  pub gaps : List UsageGap
  pub events : List Event

pub data StoreError : Type 0 where
  bail : String → StoreError
  field : String → String → StoreError
  sql : StoreError

-- `anyhow::Result`, whose failure undoes what the operation wrote.
pub data Result {ℓ} (A : Type ℓ) : Type ℓ where
  err : StoreError → Result A
  ok : A → Result A

-- `if !test { return Err(e) }`
abbrev pub guard : Bool → StoreError → Result (Unit {0})
guard false why = err why
guard true why = ok tt

-- `ok_or`, `let Some(..) = .. else`
abbrev pub ok_or {ℓ} : {A : Type ℓ} → Option A → StoreError → Result A
ok_or none e = err e
ok_or (some a) e = ok a

-- The `?` after a call, with its value and without.
infixl 5 ◌>>=◌ ◌>>◌
abbrev pub ◌>>=◌ {ℓ κ} : {S : Type ℓ} {T : Type κ} → Result S → (S → Result T) → Result T
err why >>= next = err why
ok value >>= next = next value

abbrev pub ◌>>◌ {ℓ} : {T : Type ℓ} → Result (Unit {0}) → Result T → Result T
first >> rest = first >>= λ done. rest

-- What one call reads from outside: the clocks, the fault injection variables, the override of the
-- quarantine threshold that the environment may hold, and the result of SQLite's quick check.
pub record Env : Type 0 where
  pub epoch_seconds : ℤ
  pub now_epoch_ms : ℤ
  pub recovery_now_ms : ℤ
  pub fail_config_commit : Bool
  pub fail_operational_write : Bool
  pub fail_call_record_write : Bool
  pub threshold_override : Option ℤ
  pub quick_check_ok : Bool
