-- ===== src/Server/Tests.antt =====
-- Runs of the server's operations at concrete values.
use local_api_relay.Common.{
  ℕ, true, false, Option, none, some, List, [], ◌∷◌, ◌++◌, ◌≡◌, refl, find_where,
}
use local_api_relay.Common.Int.{pos, ltb_ℤ}
use local_api_relay.Common.Text.{Text, codes, text_eq}
use local_api_relay.Store.{
  ModelRouteCandidate, chat_completions, available, unavailable, bail, Env, Category, failed,
  success, pre_commit, NewCallRecord, ModelRouteAttempt,
}
use local_api_relay.Store.Health.{health_of}
use local_api_relay.Store.Settings.{recovery_settings, effective_threshold}
use local_api_relay.Server.{StorageCategoryFailure, AppState, is_healthy}
use local_api_relay.Server.Storage
use local_api_relay.Server.Storage.{
  effective_health, category_failure, next_failure, mark_storage_category_failed, write_call_record,
}
use local_api_relay.Server.Storage.Status.{
  Consistent, Write, call, quarantine, writes, writes-Consistent, failed_status, failing_since,
  total_lost,
}
use local_api_relay.Server.Storage.Overlay.{route_health_of, quarantine_excludes}
use local_api_relay.Server.Recorder.{
  ModelRouteAttemptDraft, CallRecorder, new_recorder, begin_model_route_attempt, finalize_and_write,
  emit_call_events, drop,
}
use local_api_relay.Server.Recorder.Record.{drop-pending, cancelled}
use local_api_relay.Server.Json.{Json, end, entry, string, object, number, array, item, nil, field}
use local_api_relay.Server.Protocol.{
  relay_upstream_timeout_error, validate_complete_response, is_complete_chat_completion,
  is_complete_choice, is_semantic_failure, relay_error_category, is_attributable_upstream_status,
}
use local_api_relay.Server.Relay.{
  JsonResponse, Exchange, Upstream, no_response, responded, PreCommitFailure, Body, bytes, answered,
  refused, accept, relay_non_streaming, set_model, request_to, send, upstream_failed, read_body,
}
use local_api_relay.Server.Relay.Order.{Tried, exchanges, requests, AllFail, charge_all, drafts}
use local_api_relay.Server.Relay.Rounds.{charge, failed_draft, settled}
use local_api_relay.Server.Relay.Verdicts.{
  answered_draft, relay-failover, relay-refused, relay-neutral,
}
use local_api_relay.Server.Relay.Answers.{From, relay-answered}
use local_api_relay.Samples
use local_api_relay.Samples.{
  first_id, second_id, works, broken, keyed_store, health_row, serving, app, storage_ok, model_name,
}

consistent : Consistent app
consistent = record { healthy_persists = refl; degraded_fails = refl }

abbrev faults : List (Env × Write)
faults =
    (broken, call Samples.call)
    ∷ (broken, quarantine first_id "upstream_timeout" none)
    ∷ (works, call Samples.call)
    ∷ []

writes-Consistent_example : Consistent (writes app faults)
writes-Consistent_example = writes-Consistent app faults consistent

failed_status_example :
    (is_healthy
        (mark_storage_category_failed
          (pos 9)
          app
          Category.call_records
          (bail "disk")
          (some 1)).storage_health.state
      ≡ false)
    × ((f : StorageCategoryFailure) × (category_failure Category.call_records
            (mark_storage_category_failed
              (pos 9)
              app
              Category.call_records
              (bail "disk")
              (some 1)).storage_health
          ≡ some f)
        × (f.since
            ≡ failing_since (pos 9) (category_failure Category.call_records app.storage_health))
        × (f.error ≡ bail "disk")
        × (f.lost_records
            ≡ total_lost (some 1) (category_failure Category.call_records app.storage_health)))
failed_status_example = failed_status (pos 9) app Category.call_records (bail "disk") (some 1)

found_second : health_of second_id app.store ≡ some (health_row second_id available 1)
unfolding health_of find_where text_eq
found_second = refl

reached : ltb_ℤ (pos 2) (recovery_settings works app.store).quarantine_threshold ≡ false
unfolding recovery_settings effective_threshold
reached = refl

quarantine_excludes_example :
    route_health_of second_id (Storage.quarantine_route works app second_id "upstream_timeout" none)
    ≡ some unavailable
quarantine_excludes_example =
    quarantine_excludes works app second_id none (health_row second_id available 1) refl
      found_second "upstream_timeout" refl reached

abbrev candidate : Text → ModelRouteCandidate
candidate id = record {
  route_id = id;
  provider_id = codes "p1";
  provider_name = codes "p1";
  base_url = codes "https://u";
  api_key = codes "k";
  upstream_model_name = codes "up";
  health = available;
}

abbrev pub waiting : CallRecorder
waiting =
    begin_model_route_attempt 2 (new_recorder (pos 1_000) 1 model_name chat_completions false)
      (candidate first_id)

abbrev pending_draft : ModelRouteAttemptDraft
pending_draft = record {
  sequence = 0;
  route_id = first_id;
  provider_id = codes "p1";
  provider_name = codes "p1";
  started_at = 2;
  ended_at = none;
  http_status = none;
  failure_category = none;
  phase = pre_commit;
  outcome = none;
}

-- A client that goes away while the first upstream is asked.
drop-pending_example :
    (c : NewCallRecord) × (b : ModelRouteAttempt) × (drop works 9 app waiting
      ≡ write_call_record works (emit_call_events app (cancelled 9 waiting)) c)
    × (c.succeeded ≡ false)
    × (c.attempts ≡ b ∷ [])
    × (b.route_id ≡ first_id)
    × (b.outcome ≡ success)
drop-pending_example =
    drop-pending works 9 app waiting [] pending_draft
      (unfold begin_model_route_attempt new_recorder in refl)
      (unfold begin_model_route_attempt new_recorder in refl) refl

-- A parser of one body, and the complete response that it stands for.
abbrev completion : Json
completion = object (
    entry (codes "object") (string (codes "chat.completion")) (
      entry (codes "id") (string (codes "c1")) (
        entry (codes "created") (number (pos 1)) (
          entry (codes "model") (string (codes "up")) (
            entry (codes "choices")
              (array (
                item
                  (object (
                    entry (codes "index") (number (pos 0)) (
                      entry (codes "message") (object end)
                        (entry (codes "finish_reason") (string (codes "stop")) end))))
                  nil))
              end)))))

abbrev pub parse : List ℕ → Option Json
parse [] = none
parse (b ∷ bs) = some completion

abbrev exchange : Upstream Body → Exchange Body
exchange u = record { env = works; started = 2; ended = 3; upstream = u }

abbrev timed_out : PreCommitFailure
timed_out = record {
  error = relay_upstream_timeout_error;
  category = "upstream_timeout";
  http_status = none;
}

abbrev timeouts : Tried
timeouts = (candidate first_id, exchange (no_response true), timed_out) ∷ []

abbrev served : Upstream Body
served = responded 200 (bytes (123 ∷ []))

accepted_body : read_body parse chat_completions 200 (bytes (123 ∷ [])) ≡ accept completion
unfolding read_body validate_complete_response is_complete_chat_completion field text_eq
    is_complete_choice is_semantic_failure
accepted_body = refl

timeouts_fail : AllFail parse chat_completions timeouts
timeouts_fail = (unfold relay_error_category in refl, tt)

relay-failover_example :
    (app' : AppState) × (r : CallRecorder) × (relay_non_streaming parse chat_completions
        (pos 1_000)
        1
        works
        9
        model_name
        (exchanges timeouts ++ (candidate second_id, exchange served) ∷ [])
        app
      ≡ answered app' (record { status = 200; body = set_model model_name completion }))
    × (app'.sent
        ≡ app.sent
          ++ requests chat_completions timeouts
          ++ request_to chat_completions (candidate second_id) ∷ [])
    × (r.attempts
        ≡ drafts parse chat_completions 0 timeouts
          ++ answered_draft parse chat_completions 1 (candidate second_id) (exchange served) 200
            ∷ [])
    × (app'
        ≡ settled parse chat_completions model_name
            (exchange served)
            (candidate second_id)
            (send chat_completions
              (charge_all parse chat_completions app timeouts)
              (candidate second_id))
            r)
relay-failover_example =
    relay-failover parse chat_completions (pos 1_000) 1 works 9 model_name timeouts
      (candidate second_id) (exchange served) [] app 200 (bytes (123 ∷ [])) completion timeouts_fail
      refl accepted_body

relay-refused_example :
    (app' : AppState) × (r : CallRecorder) × (relay_non_streaming parse chat_completions
        (pos 1_000)
        1
        works
        9
        model_name
        (exchanges timeouts ++ (candidate second_id, exchange (no_response true)) ∷ [])
        app
      ≡ refused (finalize_and_write works 9 app' r false) timed_out.error)
    × ((finalize_and_write works 9 app' r false).sent
        ≡ app.sent
          ++ requests chat_completions timeouts
          ++ request_to chat_completions (candidate second_id) ∷ [])
    × (r.attempts
        ≡ drafts parse chat_completions 0 timeouts
          ++ failed_draft 1 (candidate second_id) (exchange (no_response true)) timed_out failed
            ∷ [])
    × (app'
        ≡ charge parse chat_completions works
            (no_response true)
            (candidate second_id)
            (send chat_completions
              (charge_all parse chat_completions app timeouts)
              (candidate second_id))
            timed_out)
relay-refused_example =
    relay-refused parse chat_completions (pos 1_000) 1 works 9 model_name timeouts
      (candidate second_id) (exchange (no_response true)) timed_out app timeouts_fail
      (unfold relay_error_category in refl)

abbrev bad_request : PreCommitFailure
bad_request = record {
  error = upstream_failed 400;
  category = "upstream_http_4xx";
  http_status = some 400;
}

abbrev rejected : Exchange Body
rejected = exchange (responded 400 (bytes []))

abbrev rejections : Tried
rejections = (candidate first_id, rejected, bad_request) ∷ []

relay-neutral_example :
    (app' : AppState) × (relay_non_streaming parse chat_completions
        (pos 1_000)
        1
        works
        9
        model_name
        (exchanges rejections ++ (candidate second_id, rejected) ∷ [])
        app
      ≡ refused app' bad_request.error)
    × (app'.sent
        ≡ app.sent
          ++ requests chat_completions rejections
          ++ request_to chat_completions (candidate second_id) ∷ [])
    × (app'.store.health ≡ app.store.health)
    × (app'.route_health_override ≡ app.route_health_override)
relay-neutral_example =
    relay-neutral parse chat_completions (pos 1_000) 1 works 9 model_name rejections
      (candidate second_id) rejected bad_request app
      (unfold is_attributable_upstream_status in refl, tt)
      (unfold is_attributable_upstream_status in refl)
      (unfold is_attributable_upstream_status in refl, tt)
      (unfold is_attributable_upstream_status in refl)

abbrev failover_candidates : List (ModelRouteCandidate × Exchange Body)
failover_candidates = exchanges timeouts ++ (candidate second_id, exchange served) ∷ []

abbrev failover_response : JsonResponse
failover_response = record { status = 200; body = set_model model_name completion }

one_answer :
    (app' : AppState) × (relay_non_streaming parse chat_completions
        (pos 1_000)
        1
        works
        9
        model_name
        failover_candidates
        app
      ≡ answered app' failover_response)
one_answer =
    let (app', _, done, _, _, _) =
      relay-failover parse chat_completions (pos 1_000) 1 works 9 model_name timeouts
        (candidate second_id) (exchange served) [] app 200 (bytes (123 ∷ [])) completion
        timeouts_fail refl accepted_body in
    (app', done)

relay-answered_example :
    From parse chat_completions model_name (codes "id") failover_candidates failover_response
relay-answered_example =
    relay-answered parse chat_completions model_name (codes "id") (unfold text_eq in refl)
      (pos 1_000) 1 works 9 failover_candidates app one_answer.0 failover_response one_answer.1
