-- ===== src/Server/Recorder.antt =====
-- src/server.rs: `CallRecorder`, which builds the one call record of a client call. An `Instant` is
-- a number of milliseconds of a monotonic clock, given to each method that reads that clock.
pub mod Record
use local_api_relay.Common.{
  ℕ, ◌+◌, ◌-◌, String, Bool, true, false, not, ◌&&◌, Option, none, some, List, [], ◌∷◌, ◌++◌, map,
  if◌then◌else◌, is_some, unwrap_or, all, any, length, last?, find_where,
}
use local_api_relay.Common.Int.{ℤ, pos, add_i64}
use local_api_relay.Common.Text.{Text}
use local_api_relay.Store.{
  ModelRouteCandidate, ModelRouteCandidate, RouteHealth, StreamProtocol, Usage, AttemptOutcome,
  fallback, failed, success, stream_terminated, client_cancelled, is_success, is_fallback,
  CommitPhase, pre_commit, committed, ModelRouteAttempt, NewCallRecord, call_event, Env,
}
use local_api_relay.Server.{AppState, persist_operational_event}
use local_api_relay.Server.Storage.{write_call_record}

pub record ModelRouteAttemptDraft : Type 0 where
  pub sequence : ℕ
  pub route_id : Text
  pub provider_id : Text
  pub provider_name : Text
  pub started_at : ℕ
  pub ended_at : Option ℕ
  pub http_status : Option ℕ
  pub failure_category : Option String
  pub phase : CommitPhase
  pub outcome : Option AttemptOutcome

pub record CallRecorder : Type 0 where
  pub created_at_ms : ℤ
  pub started_at : ℕ
  pub published_model_name : Text
  pub protocol : StreamProtocol
  pub streamed : Bool
  pub attempts : List ModelRouteAttemptDraft
  pub first_chunk_at : Option ℕ
  pub usage : Option Usage
  pub finalized : Bool

-- `CallRecorder::new`
unfoldable pub new_recorder : ℤ → ℕ → Text → StreamProtocol → Bool → CallRecorder
new_recorder created_at_ms now published_model_name protocol streamed = record {
  created_at_ms = created_at_ms;
  started_at = now;
  published_model_name = published_model_name;
  protocol = protocol;
  streamed = streamed;
  attempts = [];
  first_chunk_at = none;
  usage = none;
  finalized = false;
}

-- A write through `attempts.last_mut()`.
unfoldable pub update_last {ℓ} : {A : Type ℓ} → (A → A) → List A → List A
update_last f [] = []
update_last f (x ∷ []) = f x ∷ []
update_last f (x ∷ y ∷ xs) = x ∷ update_last f (y ∷ xs)

abbrev pub update_attempt :
    (ModelRouteAttemptDraft → ModelRouteAttemptDraft) → CallRecorder → CallRecorder
update_attempt f r = record r { attempts = update_last f r.attempts }

unfoldable pub begin_model_route_attempt : ℕ → CallRecorder → ModelRouteCandidate → CallRecorder
begin_model_route_attempt now r candidate = record r {
  attempts =
      r.attempts
      ++ record {
        sequence = length r.attempts;
        route_id = candidate.route_id;
        provider_id = candidate.provider_id;
        provider_name = candidate.provider_name;
        started_at = now;
        ended_at = none;
        http_status = none;
        failure_category = none;
        phase = pre_commit;
        outcome = none;
      }
        ∷ [];
}

unfoldable pub finish_model_route_attempt :
    ℕ → CallRecorder → Option ℕ → Option String → CommitPhase → AttemptOutcome → CallRecorder
finish_model_route_attempt now r http_status failure_category phase outcome =
    update_attempt
      (λ a. record a {
        ended_at = some now;
        http_status = http_status;
        failure_category = failure_category;
        phase = phase;
        outcome = some outcome;
      })
      r

unfoldable pub mark_committed : CallRecorder → ℕ → CallRecorder
mark_committed r http_status =
    update_attempt (λ a. record a { http_status = some http_status; phase = committed }) r

unfoldable pub committed_route_id : CallRecorder → Option Text
committed_route_id r = elim (last? r.attempts) [ none ↦ none | some a ↦ some a.route_id ]

abbrev pub is_committed : CommitPhase → Bool
is_committed committed = true
is_committed pre_commit = false

abbrev pub resolve_attempt :
    ℕ → AttemptOutcome → Option String → ModelRouteAttemptDraft → ModelRouteAttemptDraft
resolve_attempt now outcome failure_category a =
    if is_committed a.phase && not (is_some a.outcome)
    then record a {
      ended_at = some now;
      failure_category = failure_category;
      outcome = some outcome;
    }
    else a

unfoldable pub resolve_committed_model_route_attempt :
    ℕ → CallRecorder → AttemptOutcome → Option String → CallRecorder
resolve_committed_model_route_attempt now r outcome failure_category =
    update_attempt (resolve_attempt now outcome failure_category) r

unfoldable pub note_first_chunk : ℕ → CallRecorder → CallRecorder
note_first_chunk now r =
    if is_some r.first_chunk_at then r else record r { first_chunk_at = some now }

unfoldable pub note_usage : CallRecorder → Option Usage → CallRecorder
note_usage r none = r
note_usage r (some usage) = record r { usage = some usage }

abbrev pub succeeded_with : Option AttemptOutcome → Bool
succeeded_with none = false
succeeded_with (some outcome) = is_success outcome

abbrev pub fell_back : Option AttemptOutcome → Bool
fell_back none = false
fell_back (some outcome) = is_fallback outcome

abbrev pub map_option {ℓ κ} : {A : Type ℓ} {B : Type κ} → (A → B) → Option A → Option B
map_option f none = none
map_option f (some a) = some (f a)

-- `find_map` of the reversed attempts: the failure category of the last attempt that has one.
unfoldable pub last_failure_category : List ModelRouteAttemptDraft → Option String
last_failure_category [] = none
last_failure_category (a ∷ attempts) = elim (last_failure_category attempts) [
  | none ↦ a.failure_category
  | some c ↦ some c
]

-- The code of the event of an abnormal call that did not fall back.
abbrev pub call_code : Option AttemptOutcome → String
call_code (some stream_terminated) = "call.stream_terminated"
call_code (some client_cancelled) = "call.cancelled"
call_code _ = "call.failed"

abbrev pub last_outcome : List ModelRouteAttemptDraft → Option AttemptOutcome
last_outcome attempts = elim (last? attempts) [ none ↦ none | some a ↦ a.outcome ]

unfoldable pub emit_call_events : AppState → CallRecorder → AppState
emit_call_events app r =
    if all (λ (a : ModelRouteAttemptDraft). succeeded_with a.outcome) r.attempts
    then app
    else persist_operational_event app (
        call_event
          (if any (λ (a : ModelRouteAttemptDraft). fell_back a.outcome) r.attempts
            then "call.fallback"
            else call_code (last_outcome r.attempts))
          (length r.attempts) (last_failure_category r.attempts))

-- One attempt of the record; a missing end is now, and a missing outcome is `success`.
unfoldable pub attempt_of : ℕ → CallRecorder → ModelRouteAttemptDraft → ModelRouteAttempt
attempt_of now r a = record {
  sequence = a.sequence;
  route_id = a.route_id;
  provider_id = a.provider_id;
  provider_name = a.provider_name;
  started_at_ms = add_i64 r.created_at_ms (pos (a.started_at - r.started_at));
  duration_ms = unwrap_or now a.ended_at - a.started_at;
  http_status = a.http_status;
  failure_category = a.failure_category;
  commit_phase = a.phase;
  outcome = unwrap_or success a.outcome;
}

-- The record that `finalize` returns.
unfoldable pub call_record : ℕ → CallRecorder → Bool → NewCallRecord
call_record now r succeeded =
    let success_attempt =
      find_where (λ (a : ModelRouteAttemptDraft). succeeded_with a.outcome) r.attempts in
    record {
      created_at_ms = r.created_at_ms;
      published_model_name = r.published_model_name;
      protocol = r.protocol;
      streamed = r.streamed;
      succeeded = succeeded;
      success_provider_id =
          map_option (λ (a : ModelRouteAttemptDraft). a.provider_id) success_attempt;
      success_provider_name =
          map_option (λ (a : ModelRouteAttemptDraft). a.provider_name) success_attempt;
      usage = if succeeded then r.usage else none;
      completion_ms = if succeeded then some (now - r.started_at) else none;
      first_token_ms =
          if r.streamed && succeeded
          then map_option (λ at. at - r.started_at) r.first_chunk_at
          else none;
      attempts = map (attempt_of now r) r.attempts;
    }

-- `finalize`, without its result: the recorder is spent, and takes its usage only on success.
unfoldable pub spend : CallRecorder → Bool → CallRecorder
spend r succeeded = record r { finalized = true; usage = if succeeded then none else r.usage }

-- `finalize` and the `write_call_record` that follows each call of it.
unfoldable pub finalize_and_write : Env → ℕ → AppState → CallRecorder → Bool → AppState
finalize_and_write env now app r succeeded =
    write_call_record env (emit_call_events app r) (call_record now r succeeded)

-- `Drop::drop`
unfoldable pub drop : Env → ℕ → AppState → CallRecorder → AppState
drop env now app r =
    if r.finalized
    then app
    else finalize_and_write env now app
        (resolve_committed_model_route_attempt now r client_cancelled none) false
